-- ===== src/Peers/Table/Clean.antt =====
-- main/owl/peers.c: the removal of the peers that have not been heard for a while.
use esp_owl.Base.{
  Bool-cases, ap, arith, false, inl, inr, ltb, ltb→lt, none, put_at_cases, some, subst, suc, sym,
  true, zero, ℕ, ℕ_cases, ◌-◌, ◌<◌, ◌↔◌, ◌∙◌, ◌≡◌, ◌≢◌, ◌≤◌,
}
use esp_owl.HashMap.{
  HashMap, Keys, MapIt, MapStatus, blank, free, hashmap_get, hashmap_it_new, hashmap_it_next,
  hashmap_it_remove, index_of, is_free, used,
}
use esp_owl.HashMap.Valid.{IsValid}
use esp_owl.HashMap.Lookup.{lookup, lookup-eq-some, lookup_at}
use esp_owl.HashMap.Write.{blank-IsValid, lookup-blank, lookup-blank_other}
use esp_owl.HashMap.Iterate.{AreFree, hashmap_it_next_lem, it_remove_at}
use esp_owl.Peers.{Peer}
use esp_owl.HashMap.Probe.{used-injective, used-is_free}
use mathlib.Core.Bool.{true≢false}
use mathlib.Core.Option.{none-ne-some, some-injective}

module _ (C : Keys) where
  -- The loop of `awdl_peers_remove`, on fuel: an entry is removed where the iterator stands.
  unfoldable pub remove_old : ℕ → ℕ → MapIt C.Key Peer → MapIt C.Key Peer
  remove_old zero before it = it
  remove_old (suc fuel) before it =
      let (status, entry, it') = hashmap_it_next it in
      elim entry [
        | none ↦ it'
        | some (key, peer) ↦ elim (ltb peer.last_update before) [
          | true ↦ remove_old fuel before (hashmap_it_remove C it').1
          | false ↦ remove_old fuel before it'
        ]
      ]

  -- The table holds no more entries than it has elements.
  unfoldable pub awdl_peers_remove : HashMap C.Key Peer → ℕ → HashMap C.Key Peer
  awdl_peers_remove peers before =
      (remove_old (suc peers.table_size) before (hashmap_it_new peers)).map

module _ (C : Keys) (peers : HashMap C.Key Peer) (before : ℕ) where
  -- The entries that the iterator has passed are recent, and no recent entry has gone.
  record IsSwept (it : MapIt C.Key Peer) : Type 0 where
    valid : IsValid C it.map
    kept :
        (b : C.Key) (p : Peer)
        → lookup C peers b ≡ some p
        → before ≤ p.last_update
        → lookup C it.map b ≡ some p
    old : (b : C.Key) (p : Peer) → lookup C it.map b ≡ some p → lookup C peers b ≡ some p
    recent :
        (j : ℕ) (k : C.Key) (p : Peer)
        → j < it.next
        → j < it.map.table_size
        → it.map.elements j ≡ used k p
        → before ≤ p.last_update

  module _ (it : MapIt C.Key Peer) (i : ℕ) (s : IsSwept it)
      (gap : AreFree it.map.elements it.next i) where
    recent_before :
        (j : ℕ) (k : C.Key) (p : Peer)
        → j < i
        → j < it.map.table_size
        → it.map.elements j ≡ used k p
        → before ≤ p.last_update
    recent_before j k p h inside there = elim (Bool-cases (ltb j it.next)) [
      | inl passed ↦ s.recent j k p (ltb→lt j it.next passed) inside there
      | inr later ↦
          let unused = gap j (ground (arith, later)) h in
          absurd (true≢false (sym unused ∙ used-is_free (it.map.elements j) there))
    ]

    module _ (k : C.Key) (p : Peer) (bound : i < it.map.table_size)
        (here : it.map.elements i ≡ used k p) where
      -- Passing elements that are not in use, and then a recent entry.
      pass : before ≤ p.last_update → IsSwept (record it { next = suc i })
      pass new = record {
        valid = s.valid;
        kept = s.kept;
        old = s.old;
        recent = λ j q r h inside there. elim (ℕ_cases j i) [
          | inl e ↦
              let (_, pr) = used-injective (sym here ∙ ap it.map.elements (sym e) ∙ there) in
              subst (λ (x : Peer). before ≤ x.last_update) pr new
          | inr apart ↦ recent_before j q r (omega (arith, h, apart)) inside there
        ];
      }

      place : index_of C it.map k ≡ some i
      place = s.valid.found i k p bound here

      others : (b : C.Key) → k ≢ b → lookup C (blank C it.map i) b ≡ lookup C it.map b
      others = lookup-blank_other C s.valid k p i bound place here

      drop_old : p.last_update < before → IsSwept (record { map = blank C it.map i; next = suc i })
      unfolding blank
      drop_old late = record {
        valid = blank-IsValid C s.valid k p i bound place here;
        kept = λ b q h new.
            let still = s.kept b q h new in
            others b (λ kb.
              let found = lookup_at C it.map k k i p place here in
              let pq = some-injective p q (sym found ∙ ap (lookup C it.map) kb ∙ still) in
              absurd (omega (arith, late, new, ap (λ (x : Peer). x.last_update) pq)))
            ∙ still;
        old = λ b q h. elim (Bool-cases (C.same k b)) [
          | inl same_key ↦
              let gone = lookup-blank C s.valid k p i bound place here in
              let kb = C.same-eq k b same_key in
              absurd (none-ne-some q (sym gone ∙ ap (lookup C (blank C it.map i)) kb ∙ h))
          | inr other ↦
              let apart : k ≢ b =
                λ (kb : k ≡ b). true≢false (sym (C.same_refl k) ∙ ap (C.same k) kb ∙ other) in
              s.old b q (sym (others b apart) ∙ h)
        ];
        recent = λ j q r h inside there. elim (put_at_cases it.map.elements i j free) [
          | inl (_, at) ↦ absurd (true≢false (ap is_free (sym at ∙ there)))
          | inr (apart, at) ↦ recent_before j q r (omega (arith, h, apart)) inside (sym at ∙ there)
        ];
      }

  finish :
      (it : MapIt C.Key Peer)
      → IsSwept it
      → AreFree it.map.elements it.next it.map.table_size
      → IsSwept (record it { next = suc it.map.table_size })
  finish it s gap = record {
    valid = s.valid;
    kept = s.kept;
    old = s.old;
    recent =
        λ j k p h inside there. recent_before it it.map.table_size s gap j k p inside inside there;
  }

  abbrev Ends : MapIt C.Key Peer → Type 0
  Ends it = IsSwept it × (it.map.table_size ≤ it.next)

  rest_bound :
      (m : HashMap C.Key Peer) (i : ℕ) → i < m.table_size → suc i ≤ (blank C m i).table_size
  unfolding blank
  rest_bound m i h = omega (arith, h)

  rest_enough :
      (m : HashMap C.Key Peer) (i next fuel : ℕ)
      → next ≤ i
      → i < m.table_size
      → m.table_size - next < suc fuel
      → (blank C m i).table_size - suc i < fuel
  unfolding blank
  rest_enough m i next fuel lower upper enough = omega (arith, lower, upper, enough)

  remove_old_lem :
      (fuel : ℕ) (it : MapIt C.Key Peer)
      → IsSwept it
      → it.next ≤ it.map.table_size
      → it.map.table_size - it.next < fuel
      → Ends (remove_old C fuel before it)
  unfolding remove_old
  remove_old_lem zero it s bound enough = absurd (omega (arith, enough))
  remove_old_lem (suc fuel) it s bound enough = elim (hashmap_it_next_lem it bound) [
    | inl (_, entry, it_at, gap) ↦ rw (remove_old, entry, it_at) (finish it s gap, omega arith)
    | inr (i, k, p, lower, upper, here, gap, _, entry, it_at) ↦
        elim (Bool-cases (ltb p.last_update before)) [
          | inr new ↦
              rw (remove_old, entry, new, it_at)
                (remove_old_lem fuel (record it { next = suc i })
                  (pass it i s gap k p upper here (ground (arith, new))) (omega (arith, upper))
                  (omega (arith, lower, upper, enough)))
          | inl late ↦
              let it' : MapIt C.Key Peer = record { map = blank C it.map i; next = suc i } in
              let removed =
                ap (λ (r : MapStatus × MapIt C.Key Peer). r.1)
                  (it_remove_at C it.map i k p upper here) in
              let swept = drop_old it i s gap k p upper here (ltb→lt p.last_update before late) in
              rw (remove_old, entry, late, it_at)
                (subst (λ (x : MapIt C.Key Peer). Ends (remove_old C fuel before x)) (sym removed)
                  (remove_old_lem fuel it' swept (rest_bound it.map i upper)
                    (rest_enough it.map i it.next fuel lower upper enough)))
        ]
  ]

-- In a table in good order, removing the peers that were last heard before a time leaves a table
-- in good order with exactly the peers that were heard at that time or later.
pub awdl_peers_remove_lem :
    (C : Keys) (peers : HashMap C.Key Peer) (before : ℕ) (b : C.Key) (p : Peer)
    → IsValid C peers
    → let peers' = awdl_peers_remove C peers before in
      IsValid C peers'
      × (((hashmap_get C peers' b false).1 ≡ some p)
          ↔ (((hashmap_get C peers b false).1 ≡ some p) × (before ≤ p.last_update)))
unfolding awdl_peers_remove hashmap_it_new
awdl_peers_remove_lem C peers before b p ok =
    let start : IsSwept C peers before (hashmap_it_new peers) = record {
      valid = ok;
      kept = λ b q h new. h;
      old = λ b q h. h;
      recent = λ j k q h inside there. absurd (omega (arith, h));
    } in
    let (swept, all) =
      remove_old_lem C peers before (suc peers.table_size) (hashmap_it_new peers) start
        (omega arith) (omega arith) in
    (
      swept.valid,
      (
        λ h.
            let (i, bound, e, here) = lookup-eq-some C swept.valid b p h in
            (swept.old b p h, swept.recent i b p (omega (arith, bound, all)) bound here),
        λ h. swept.kept b p h.0 h.1,
      ),
    )
