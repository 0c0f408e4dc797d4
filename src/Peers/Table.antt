-- ===== src/Peers/Table.antt =====
-- main/owl/peers.c: the peers of a node, over the map that holds them.
pub mod Keys
pub mod Hashed
pub mod Update
pub mod Clean
pub mod Tests
use esp_owl.Base.{Bool, Option, false, if◌then◌else◌, none, not, some, true, ℕ, ◌&&◌, ◌≡◌, ◌≢◌, ◌⊎◌}
use esp_owl.Ethernet.{EtherAddr}
use esp_owl.Peers.{Peer, awdl_peer_is_valid, awdl_peer_new}

-- What the peers need of a map: a table of peers by address, which the hash map of
-- main/owl/hashmap.c fills in Peers.Table.Hashed. `set` stores through a pointer that `get`
-- returned; `put` is the insertion of a new entry, and says whether there was memory for it.
pub record PeerMap : Type 1 where
  pub Table : Type 0
  pub IsValid : Table → Type 0
  pub get : Table → EtherAddr → Option Peer
  pub set : Table → EtherAddr → Peer → Table
  pub put : Table → EtherAddr → Peer → Bool × Table
  pub remove : Table → EtherAddr → Table
  pub get-set :
      (t : Table) (a : EtherAddr) (p q : Peer)
      → IsValid t
      → get t a ≡ some p
      → IsValid (set t a q)
        × (get (set t a q) a ≡ some q)
        × ((b : EtherAddr) → a ≢ b → get (set t a q) b ≡ get t b)
  pub get-put :
      (t : Table) (a : EtherAddr) (q : Peer)
      → IsValid t
      → get t a ≡ none
      → let (stored, t') = put t a q in
        IsValid t'
        × ((stored ≡ false)
            ⊎ ((stored ≡ true)
                × (get t' a ≡ some q)
                × ((b : EtherAddr) → a ≢ b → get t' b ≡ get t b)))
  pub get-remove :
      (t : Table) (a : EtherAddr)
      → IsValid t
      → IsValid (remove t a)
        × (get (remove t a) a ≡ none)
        × ((b : EtherAddr) → a ≢ b → get (remove t a) b ≡ get t b)

-- `enum peers_status`
pub data PeersStatus : Type 0 where
  peers_update : PeersStatus
  peers_ok : PeersStatus
  peers_missing : PeersStatus
  peers_internal : PeersStatus

-- `status < 0`
abbrev pub is_failure : PeersStatus → Bool
is_failure peers_update = false
is_failure peers_ok = false
is_failure peers_missing = true
is_failure peers_internal = true

-- The part after `out`: the peer, and whether it has turned valid, when the callback is called.
unfoldable pub turn_valid : Peer → Peer × Bool
turn_valid peer =
    if not peer.is_valid && awdl_peer_is_valid peer
    then (record peer { is_valid = true }, true)
    else (peer, false)

module _ (M : PeerMap) where
  -- The status, the table, and the peer that the callback is called with. `garbage` is what
  -- `malloc` returns.
  unfoldable pub awdl_peer_add :
      Peer → M.Table → EtherAddr → ℕ → PeersStatus × M.Table × Option Peer
  awdl_peer_add garbage peers addr now = elim (M.get peers addr) [
    | some peer ↦
        let (turned, called) = turn_valid (record peer { last_update = now }) in
        (peers_update, M.set peers addr turned, if called then some turned else none)
    | none ↦
        let peer : Peer = record (awdl_peer_new garbage addr) { last_update = now } in
        let (stored, peers') = M.put peers addr peer in
        let (turned, called) = turn_valid peer in
        if stored
        then (peers_ok, M.set peers' addr turned, if called then some turned else none)
        else (peers_internal, peers', none)
  ]

  unfoldable pub awdl_peer_remove : M.Table → EtherAddr → PeersStatus × M.Table
  awdl_peer_remove peers addr = elim (M.get peers addr) [
    | none ↦ (peers_missing, peers)
    | some _ ↦ (peers_ok, M.remove peers addr)
  ]

  unfoldable pub awdl_peer_get : M.Table → EtherAddr → PeersStatus × Option Peer
  awdl_peer_get peers addr = elim (M.get peers addr) [
    | none ↦ (peers_missing, none)
    | some peer ↦ (peers_ok, some peer)
  ]
