-- ===== src/HashMap/Valid.antt =====
-- main/owl/hashmap.c: the invariant of the map, and what one store must satisfy to keep it.
use esp_owl.Base.{
  Bool-cases, arith, false, inl, inr, put_at, put_at_cases, refl, some, suc, sym, true, zero, ℕ,
  ℕ_cases, ◌%◌, ◌+◌, ◌<◌, ◌∙◌, ◌≡◌, ◌≢◌, ◌≤◌,
}
use esp_owl.HashMap.{
  Element, Elements, HashMap, Keys, free, hashmap_hash_int, holds, index_of, max_chain_length, used,
}
use esp_owl.HashMap.Probe.{holds-used, probe_get-holds, probe_get_same}
use mathlib.Core.Option.{some-injective}

abbrev pub occupied : {K V : Type 0} → Element K V → ℕ
occupied free = 0
occupied (used k v) = 1

-- The number of elements in use below `n`.
abbrev pub count : {K V : Type 0} → Elements K V → ℕ → ℕ
count f zero = 0
count f (suc n) = occupied (f n) + count f n

count-put_at :
    {K V : Type 0} (f : Elements K V) (n i : ℕ) (x : Element K V)
    → (i < n → count (put_at f i x) n + occupied (f i) ≡ count f n + occupied x)
      × (n ≤ i → count (put_at f i x) n ≡ count f n)
count-put_at f zero i x = (λ h. absurd (omega arith), λ h. refl)
count-put_at f (suc n) i x =
    let (below, above) = count-put_at f n i x in
    elim (put_at_cases f i n x) [
      | inl (e, at) ↦
          (λ h. rw (at, above (omega (arith, e)), e) (omega arith), λ h. absurd (omega (arith, e)))
      | inr (apart, at) ↦ (
        λ h. rw at (omega (arith, below (omega (arith, apart)))),
        λ h. rw at (omega (arith, above (omega arith))),
      )
    ]

pub occupied_le_count :
    {K V : Type 0} (f : Elements K V) (n i : ℕ) → i < n → occupied (f i) ≤ count f n
occupied_le_count f zero i h = absurd (omega arith)
occupied_le_count f (suc n) i h = elim (ℕ_cases i n) [
  | inl e ↦ rw e (omega arith)
  | inr apart ↦ omega (arith, occupied_le_count f n i (omega (arith, apart)))
]

-- Every entry is found at its place, and `size` is at least their number.
pub record IsValid (C : Keys) {V : Type 0} (m : HashMap C.Key V) : Type 0 where
  pub nonempty : 0 < m.table_size
  pub found :
      (i : ℕ) (k : C.Key) (v : V)
      → i < m.table_size
      → m.elements i ≡ used k v
      → index_of C m k ≡ some i
  pub counted : count m.elements m.table_size ≤ m.size

-- A map with another size and another element at one index.
abbrev pub written : {K V : Type 0} → HashMap K V → ℕ → ℕ → Element K V → HashMap K V
written m s i x = record m { size = s; elements = put_at m.elements i x }

module _ (C : Keys) {V : Type 0} {m : HashMap C.Key V} (ok : IsValid C m) where
  pub index_of-bound :
      (key : C.Key) (i : ℕ)
      → index_of C m key ≡ some i
      → (i < m.table_size) × (v : V) × (m.elements i ≡ used key v)
  unfolding index_of hashmap_hash_int
  index_of-bound key i e =
      let (bound, here) =
        probe_get-holds C m.elements m.table_size key max_chain_length (C.hash key % m.table_size) i
          (omega (arith, ok.nonempty)) e in
      let (v, there) = holds-used C (m.elements i) key here in (bound, v, there)

  pub holds_only :
      (key : C.Key) (i j : ℕ)
      → i < m.table_size
      → index_of C m key ≡ some j
      → holds C (m.elements i) key ≡ true
      → j ≡ i
  holds_only key i j bound e h =
      let (v, here) = holds-used C (m.elements i) key h in
      some-injective j i (sym e ∙ ok.found i key v bound here)

  -- Searches for keys that neither the old nor the new element has are not affected.
  pub index_of-written :
      (s i : ℕ) (x : Element C.Key V) (b : C.Key)
      → holds C x b ≡ holds C (m.elements i) b
      → index_of C (written m s i x) b ≡ index_of C m b
  unfolding index_of hashmap_hash_int
  index_of-written s i x b h =
      probe_get_same C m.elements m.table_size b max_chain_length (C.hash b % m.table_size) i x h

  pub written-IsValid :
      (s i : ℕ) (x : Element C.Key V)
      → i < m.table_size
      → ((b : C.Key) (j : ℕ) → index_of C m b ≡ some j → j ≢ i → holds C x b ≡ false)
      → ((k : C.Key) (v : V) → x ≡ used k v → index_of C (written m s i x) k ≡ some i)
      → count m.elements m.table_size + occupied x ≤ s + occupied (m.elements i)
      → IsValid C (written m s i x)
  written-IsValid s i x bound others self counted = record {
    nonempty = ok.nonempty;
    found = λ j k v j_bound e. elim (put_at_cases m.elements i j x) [
      | inl (ji, at) ↦ rw ji (self k v (sym at ∙ e))
      | inr (apart, at) ↦
          let there = ok.found j k v j_bound (sym at ∙ e) in
          let not_new = others k j there apart in
          let not_old : holds C (m.elements i) k ≡ false =
            elim (Bool-cases (holds C (m.elements i) k)) [
              | inl h ↦ absurd (apart (holds_only k i j bound there h))
              | inr h ↦ h
            ] in
          index_of-written s i x k (not_new ∙ sym not_old) ∙ there
    ];
    counted = omega (arith, counted, (count-put_at m.elements m.table_size i x).0 bound);
  }
