-- ===== src/HashMap/Laws.antt =====
-- main/owl/hashmap.c: what the operations promise to a caller.
use esp_owl.Base.{Bool, arith, false, inl, inr, none, refl, some, true, ℕ, ◌+◌, ◌≡◌, ◌≢◌, ◌≤◌, ◌⊎◌}
use esp_owl.HashMap.{
  HashMap, Keys, hashmap_get, hashmap_length, hashmap_new, hashmap_put, initial_size, map_missing,
  map_ok, map_omem,
}
use esp_owl.HashMap.Valid.{IsValid}
use esp_owl.HashMap.Lookup.{get_found, get_missing, lookup-eq-none, lookup_cases}
use esp_owl.HashMap.Write.{blank-IsValid, blank_size, lookup-blank, lookup-blank_other}
use esp_owl.HashMap.Move.{empty, empty-IsValid, lookup-empty}
use esp_owl.HashMap.Rehash.{Refused, hashmap_put-Adds}

-- A new map is in good order, has no key, and its length is 0.
pub hashmap_new_lem :
    (C : Keys) (V : Type 0) (key : C.Key)
    → let m : HashMap C.Key V = hashmap_new in
      IsValid C m × (hashmap_get C m key false ≡ (map_missing, none, m)) × (hashmap_length m ≡ 0)
unfolding hashmap_new hashmap_length
hashmap_new_lem C V key =
    let m : HashMap C.Key V = empty C initial_size in
    let valid : IsValid C m = empty-IsValid C initial_size (omega arith) in
    let missing =
      lookup-eq-none C (empty-IsValid C initial_size (omega arith)) key
        (lookup-empty C initial_size key) in
    (valid, get_missing C m key false missing, refl)

pub hashmap_get-put :
    (C : Keys) {V : Type 0} (calloc : ℕ → Bool) (fuel : ℕ) (key : C.Key) (v : V)
    (m : HashMap C.Key V)
    → IsValid C m
    → (hashmap_get C m key false).1 ≡ none
    → let (status, m') = hashmap_put C calloc fuel key v m in
      IsValid C m'
      × (m.table_size ≤ m'.table_size)
      × (((status ≡ map_omem) × Refused C V calloc fuel key m)
          ⊎ ((status ≡ map_ok)
              × ((hashmap_get C m' key false).1 ≡ some v)
              × ((b : C.Key)
                  → key ≢ b
                  → (hashmap_get C m' b false).1 ≡ (hashmap_get C m b false).1)))
hashmap_get-put C calloc fuel key v m ok missing = hashmap_put-Adds C calloc fuel key v m ok missing

-- Getting a key with removal returns what getting it without returns, and keeps the map in good
-- order. Then the key is missing, every other key has what it had, and the length is one less if
-- there was an entry and else the same.
pub hashmap_get-remove :
    (C : Keys) {V : Type 0} (key : C.Key) (m : HashMap C.Key V)
    → IsValid C m
    → let (status, value, m') = hashmap_get C m key true in
      (status ≡ (hashmap_get C m key false).0)
      × (value ≡ (hashmap_get C m key false).1)
      × IsValid C m'
      × ((hashmap_get C m' key false).1 ≡ none)
      × ((b : C.Key) → key ≢ b → (hashmap_get C m' b false).1 ≡ (hashmap_get C m b false).1)
      × (((status ≡ map_missing) × (hashmap_length m' ≡ hashmap_length m))
          ⊎ ((status ≡ map_ok) × (hashmap_length m' + 1 ≡ hashmap_length m)))
unfolding hashmap_length
hashmap_get-remove C key m ok = elim (lookup_cases C ok key) [
  | inl (e, _) ↦
      rw (get_missing C m key true e, get_missing C m key false e)
        (refl, refl, ok, refl, λ b apart. refl, inl (refl, refl))
  | inr (i, v, bound, e, here, found) ↦
      rw (get_found C m key key i v true e here, get_found C m key key i v false e here)
        (
          refl,
          refl,
          blank-IsValid C ok key v i bound e here,
          lookup-blank C ok key v i bound e here,
          lookup-blank_other C ok key v i bound e here,
          inr (refl, blank_size C ok key v i bound e here),
        )
]
