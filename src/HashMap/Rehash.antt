-- ===== src/HashMap/Rehash.antt =====
-- main/owl/hashmap.c: the table of twice the size, and insertion.
use esp_owl.Base.{
  Bool, false, true, none, some, ◌≤◌, Bool-cases, Option-cases, arith, inl, inr, refl, suc, zero, ℕ,
  ◌*◌, ◌∙◌, ◌≡◌, ◌⊎◌,
}
use esp_owl.HashMap.{
  HashMap, Keys, Put, store, hashmap_hash, hashmap_put, hashmap_rehash, map_ok, map_omem,
}
use esp_owl.HashMap.Valid.{IsValid}
use esp_owl.HashMap.Lookup.{lookup, lookup-eq-none}
use esp_owl.HashMap.Write.{lookup-store, lookup-store_other, store-IsValid}
use esp_owl.HashMap.Move.{
  Adds, Blocked, IsMoved, all_moved, empty, empty-IsValid, lookup-empty, reinsert_lem,
}

-- Why a key cannot be put into a map: its doublings are used up; or the map has no place for the
-- key, and there is no memory for a table of twice the size; or there is, and then a key cannot be
-- put into a table of at least that size, in which there are only entries of the map: that is the
-- key itself, or the key of an entry that is moved.
pub data Refused (C : Keys) (V : Type 0) (calloc : ℕ → Bool)
    : ℕ → C.Key → HashMap C.Key V → Type 0 where
  used_up : {key : C.Key} {m : HashMap C.Key V} → Refused C V calloc zero key m
  no_memory :
      {fuel : ℕ} {key : C.Key} {m : HashMap C.Key V}
      → hashmap_hash C m key ≡ none
      → calloc (2 * m.table_size) ≡ false
      → Refused C V calloc (suc fuel) key m
  doubled :
      {fuel : ℕ} {key : C.Key} {m : HashMap C.Key V} (k : C.Key) (larger : HashMap C.Key V)
      → hashmap_hash C m key ≡ none
      → calloc (2 * m.table_size) ≡ true
      → (k ≡ key) ⊎ ((v : V) × (lookup C m k ≡ some v))
      → IsValid C larger
      → 2 * m.table_size ≤ larger.table_size
      → ((b : C.Key) → lookup C m b ≡ none → lookup C larger b ≡ none)
      → Refused C V calloc fuel k larger
      → Refused C V calloc (suc fuel) key m

module _ (C : Keys) {V : Type 0} (calloc : ℕ → Bool) where
  rehash_lem :
      (Why : C.Key → HashMap C.Key V → Type 0) (put : Put C.Key V) (m : HashMap C.Key V)
      → Adds C Why put
      → (ok : IsValid C m)
      → let r = hashmap_rehash C calloc put m in
        IsValid C r.1
        × (m.table_size ≤ r.1.table_size)
        × (((r.0 ≡ map_omem)
              × ((calloc (2 * m.table_size) ≡ false)
                  ⊎ ((calloc (2 * m.table_size) ≡ true) × Blocked C ok Why (2 * m.table_size))))
            ⊎ ((r.0 ≡ map_ok)
                × (calloc (2 * m.table_size) ≡ true)
                × (2 * m.table_size ≤ r.1.table_size)
                × ((b : C.Key) → lookup C r.1 b ≡ lookup C m b)))
  unfolding hashmap_rehash
  rehash_lem Why put m adds ok = elim (Bool-cases (calloc (2 * m.table_size))) [
    | inr refused ↦ rw (hashmap_rehash, refused) (ok, omega arith, inl (refl, inl refl))
    | inl given ↦
        let twice = empty-IsValid C (2 * m.table_size) (omega (arith, ok.nonempty)) in
        let start : IsMoved C ok 0 (empty C (2 * m.table_size)) = record {
          valid = twice;
          moved = λ j k v h there. absurd (omega (arith, h));
          only = λ b none_holds. lookup-empty C (2 * m.table_size) b;
        } in
        let (valid, grows, result) =
          reinsert_lem C ok Why put adds m.table_size 0 (empty C (2 * m.table_size)) (omega arith)
            start in
        rw (hashmap_rehash, given)
          (
            valid,
            omega (arith, grows),
            elim result [
              | inl (omem, blocked) ↦ inl (omem, inr (refl, blocked))
              | inr (done, moved) ↦ inr (done, refl, grows, all_moved C ok _ moved)
            ],
          )
  ]

  pub hashmap_put-Adds :
      (fuel : ℕ) → Adds C (Refused C V calloc fuel) (hashmap_put C {V = V} calloc fuel)
  unfolding hashmap_put store
  hashmap_put-Adds zero key v m ok missing = (ok, omega arith, inl (refl, used_up))
  hashmap_put-Adds (suc fuel) key v m ok missing = elim (Option-cases (hashmap_hash C m key)) [
    | inr (i, place) ↦
        let gone = lookup-eq-none C ok key missing in
        rw (hashmap_put, place)
          (
            store-IsValid C ok key v i gone place,
            omega arith,
            inr (
              refl,
              lookup-store C ok key v i gone place,
              lookup-store_other C ok key v i gone place,
            ),
          )
    | inl full ↦
        let (valid, grows, result) =
          rehash_lem (Refused C V calloc fuel) (hashmap_put C calloc fuel) m (hashmap_put-Adds fuel)
            ok in
        elim result [
          | inl (omem, inl refused) ↦
              rw (hashmap_put, full, omem) (valid, grows, inl (refl, no_memory full refused))
          | inl (omem, inr (given, s)) ↦
              rw (hashmap_put, full, omem)
                (
                  valid,
                  grows,
                  inl (
                    refl,
                    doubled s.key s.table full given (inr (s.value, s.entry)) s.valid s.large
                        s.inside s.why,
                  ),
                )
          | inr (done, given, large, same) ↦
              let m' = (hashmap_rehash C calloc (hashmap_put C calloc fuel) m).1 in
              let (added, larger, rest) =
                hashmap_put-Adds fuel key v m' valid (same key ∙ missing) in
              rw (hashmap_put, full, done)
                (
                  added,
                  omega (arith, grows, larger),
                  elim rest [
                    | inl (omem, why) ↦ inl (
                      omem,
                      doubled key m' full given (inl refl) valid large (λ b gone. same b ∙ gone)
                          why,
                    )
                    | inr (put, self, others) ↦ inr (put, self, λ b apart. others b apart ∙ same b)
                  ],
                )
        ]
  ]
