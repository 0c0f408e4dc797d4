-- ===== src/HashMap/Lookup.antt =====
-- main/owl/hashmap.c: the map as a function of the key.
use esp_owl.Base.{
  Bool, Option, Option-cases, ap, false, if◌then◌else◌, inl, inr, none, put_at_other, refl, some,
  sym, ℕ, ◌<◌, ◌∙◌, ◌≡◌, ◌≢◌, ◌⊎◌,
}
use esp_owl.HashMap.{
  Element, HashMap, Keys, blank, hashmap_get, holds, index_of, map_missing, map_ok, used,
}
use esp_owl.HashMap.Probe.{used-holds}
use esp_owl.HashMap.Valid.{IsValid, index_of-bound, index_of-written, written}
use mathlib.Core.Bool.{true≢false}
use mathlib.Core.Option.{none-ne-some, some-injective}

-- What the map has for a key.
abbrev pub lookup : (C : Keys) {V : Type 0} → HashMap C.Key V → C.Key → Option V
lookup C m key = (hashmap_get C m key false).1

module _ (C : Keys) {V : Type 0} where
  pub get_missing :
      (m : HashMap C.Key V) (key : C.Key) (remove : Bool)
      → index_of C m key ≡ none
      → hashmap_get C m key remove ≡ (map_missing, none, m)
  unfolding hashmap_get
  get_missing m key remove e = rw (hashmap_get, e) refl

  pub get_found :
      (m : HashMap C.Key V) (key k : C.Key) (i : ℕ) (v : V) (remove : Bool)
      → index_of C m key ≡ some i
      → m.elements i ≡ used k v
      → hashmap_get C m key remove ≡ (map_ok, some v, if remove then blank C m i else m)
  unfolding hashmap_get
  get_found m key k i v remove e here = rw (hashmap_get, e, here) refl

  pub lookup_missing :
      (m : HashMap C.Key V) (key : C.Key) → index_of C m key ≡ none → lookup C m key ≡ none
  lookup_missing m key e = rw (lookup, get_missing m key false e) refl

  pub lookup_at :
      (m : HashMap C.Key V) (key k : C.Key) (i : ℕ) (v : V)
      → index_of C m key ≡ some i
      → m.elements i ≡ used k v
      → lookup C m key ≡ some v
  lookup_at m key k i v e here = rw (lookup, get_found m key k i v false e here) refl

module _ (C : Keys) {V : Type 0} {m : HashMap C.Key V} (ok : IsValid C m) where
  -- A key is missing, or stands at an index with what a search returns for it.
  pub lookup_cases :
      (key : C.Key)
      → ((index_of C m key ≡ none) × (lookup C m key ≡ none))
        ⊎ ((i : ℕ) × (v : V) × (i < m.table_size)
            × (index_of C m key ≡ some i)
            × (m.elements i ≡ used key v)
            × (lookup C m key ≡ some v))
  lookup_cases key = elim (Option-cases (index_of C m key)) [
    | inl e ↦ inl (e, lookup_missing C m key e)
    | inr (i, e) ↦
        let (bound, v, here) = index_of-bound C ok key i e in
        inr (i, v, bound, e, here, lookup_at C m key key i v e here)
  ]

  pub lookup-eq-some :
      (key : C.Key) (v : V)
      → lookup C m key ≡ some v
      → (i : ℕ) × (i < m.table_size) × (index_of C m key ≡ some i) × (m.elements i ≡ used key v)
  lookup-eq-some key v h = elim (lookup_cases key) [
    | inl (_, e) ↦ absurd (none-ne-some _ (sym e ∙ h))
    | inr (i, w, bound, e, here, found) ↦
        let same_value = some-injective w v (sym found ∙ h) in
        (i, bound, e, here ∙ ap (λ (u : V). used key u) same_value)
  ]

  pub lookup-eq-none : (key : C.Key) → lookup C m key ≡ none → index_of C m key ≡ none
  lookup-eq-none key h = elim (lookup_cases key) [
    | inl (e, _) ↦ e
    | inr (i, w, bound, e, here, found) ↦ absurd (none-ne-some _ (sym h ∙ found))
  ]

  pub lookup-written :
      (s i : ℕ) (x : Element C.Key V) (b : C.Key)
      → holds C x b ≡ false
      → holds C (m.elements i) b ≡ false
      → lookup C (written m s i x) b ≡ lookup C m b
  lookup-written s i x b new old =
      let same_place = index_of-written C ok s i x b (new ∙ sym old) in
      elim (lookup_cases b) [
        | inl (e, gone) ↦ lookup_missing C (written m s i x) b (same_place ∙ e) ∙ sym gone
        | inr (j, v, bound, e, here, found) ↦
            let apart : j ≢ i = λ (ji : j ≡ i).
              true≢false
                (sym (used-holds C (m.elements i) (sym (ap m.elements ji) ∙ here)) ∙ old) in
            lookup_at C (written m s i x) b b j v (same_place ∙ e)
              (put_at_other m.elements i j x apart ∙ here)
            ∙ sym found
      ]
