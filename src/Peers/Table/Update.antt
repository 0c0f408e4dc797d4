-- ===== src/Peers/Table/Update.antt =====
-- main/owl/peers.c: what adding, updating and removing a peer does to a table.
use esp_owl.Base.{
  [], ◌||◌, Option-cases, arith, false, if◌then◌else◌, inl, inr, none, refl, some, true, ℕ, ◌∙◌,
  ◌≡◌, ◌≢◌, ◌⊎◌,
}
use esp_owl.Ethernet.{EtherAddr}
use esp_owl.Peers.{Peer, awdl_peer_is_valid, awdl_peer_new}
use esp_owl.Peers.Table.{
  PeerMap, awdl_peer_add, awdl_peer_get, is_failure, peers_internal, peers_ok, peers_update,
  turn_valid,
}

abbrev pub heard : Peer → ℕ → Peer
heard peer now = record peer { last_update = now }

abbrev pub fresh : Peer → EtherAddr → ℕ → Peer
fresh garbage addr now = heard (awdl_peer_new garbage addr) now

pub get_known :
    (M : PeerMap) (t : M.Table) (a : EtherAddr) (p : Peer)
    → M.get t a ≡ some p
    → awdl_peer_get M t a ≡ (peers_ok, some p)
unfolding awdl_peer_get
get_known M t a p e = rw (awdl_peer_get, e) refl

-- A peer that has sent all that makes it valid is marked so.
abbrev pub IsMarked : Peer → Type 0
IsMarked p = awdl_peer_is_valid p ≡ true → p.is_valid ≡ true

pub turn_valid-IsMarked : (p : Peer) → IsMarked (turn_valid p).0
unfolding turn_valid awdl_peer_is_valid
turn_valid-IsMarked p = ground arith

turn_valid_keeps : (p : Peer) → (turn_valid p).0.last_update ≡ p.last_update
unfolding turn_valid
turn_valid_keeps p = ground arith

fresh-IsMarked : (garbage : Peer) (a : EtherAddr) (now : ℕ) → IsMarked (fresh garbage a now)
unfolding awdl_peer_is_valid awdl_peer_new
fresh-IsMarked garbage a now h = cc

module _ (M : PeerMap) (garbage : Peer) (t : M.Table) (a : EtherAddr) (now : ℕ) where
  pub add_known :
      (p : Peer)
      → M.get t a ≡ some p
      → let turned = turn_valid (heard p now) in
        awdl_peer_add M garbage t a now
        ≡ (peers_update, M.set t a turned.0, if turned.1 then some turned.0 else none)
  unfolding awdl_peer_add
  add_known p e = rw (awdl_peer_add, e) refl

  add_new :
      M.get t a ≡ none
      → (M.put t a (fresh garbage a now)).0 ≡ true
      → awdl_peer_add M garbage t a now
        ≡ (peers_ok, M.set (M.put t a (fresh garbage a now)).1 a (fresh garbage a now), none)
  unfolding awdl_peer_add turn_valid awdl_peer_is_valid awdl_peer_new
  add_new e put = rw (awdl_peer_add, e, put) refl

  add_full :
      M.get t a ≡ none
      → (M.put t a (fresh garbage a now)).0 ≡ false
      → awdl_peer_add M garbage t a now
        ≡ (peers_internal, (M.put t a (fresh garbage a now)).1, none)
  unfolding awdl_peer_add awdl_peer_new
  add_full e put = rw (awdl_peer_add, e, put) refl

-- Adding a peer gives an entry with the time and the mark, or fails for a peer without an entry.
pub get-add :
    (M : PeerMap) (garbage : Peer) (t : M.Table) (a : EtherAddr) (now : ℕ)
    → M.IsValid t
    → let (status, t', called) = awdl_peer_add M garbage t a now in
      M.IsValid t'
      × (((status ≡ peers_internal) × (M.get t a ≡ none))
          ⊎ ((p : Peer) × (is_failure status ≡ false)
              × (M.get t' a ≡ some p)
              × (p.last_update ≡ now)
              × IsMarked p
              × ((b : EtherAddr) → a ≢ b → M.get t' b ≡ M.get t b)))
get-add M garbage t a now ok = elim (Option-cases (M.get t a)) [
  | inr (p, e) ↦
      let turned = (turn_valid (heard p now)).0 in
      let (valid, self, others) = M.get-set t a p turned ok e in
      rw (add_known M garbage t a now p e) (
        valid,
        inr (
          turned,
          refl,
          self,
          turn_valid_keeps (heard p now),
          turn_valid-IsMarked (heard p now),
          others,
        ),
      )
  | inl e ↦
      let q = fresh garbage a now in
      let t' = (M.put t a q).1 in
      let (put_valid, result) = M.get-put t a q ok e in
      elim result [
        | inl full ↦ rw (add_full M garbage t a now e full) (put_valid, inl (refl, e))
        | inr (stored, put_self, put_others) ↦
            let (valid, self, others) = M.get-set t' a q q put_valid put_self in
            rw (add_new M garbage t a now e stored) (
              valid,
              inr (
                q,
                refl,
                self,
                refl,
                fresh-IsMarked garbage a now,
                λ b apart. others b apart ∙ put_others b apart,
              ),
            )
      ]
]

-- A known peer that is heard again: the time is new, the mark is set if the peer has all that makes
-- it valid, and everything else stays.
abbrev pub updated : Peer → ℕ → Peer
updated p now = record p { last_update = now; is_valid = p.is_valid || awdl_peer_is_valid p }

-- A peer as it is first heard: nothing of it is known but its address and the time.
abbrev pub IsNew : Peer → EtherAddr → ℕ → Type 0
IsNew q a now =
    (q.addr ≡ a)
    × (q.last_update ≡ now)
    × (q.name ≡ [])
    × (q.version ≡ 0)
    × (q.devclass ≡ 0)
    × (q.supports_v2 ≡ false)
    × (q.sent_mif ≡ false)
    × (q.is_valid ≡ false)
