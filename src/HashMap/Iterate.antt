-- ===== src/HashMap/Iterate.antt =====
-- main/owl/hashmap.c: the iterator.
use esp_owl.Base.{
  Option, ap, arith, false, inl, inr, leb, none, refl, some, suc, true, zero, ℕ, ℕ_cases, ◌+◌, ◌-◌,
  ◌<◌, ◌≡◌, ◌≤◌, ◌⊎◌,
}
use esp_owl.HashMap.{
  Elements, HashMap, Keys, MapIt, blank, hashmap_it_next, hashmap_it_remove, is_free, map_missing,
  map_ok, scan, used,
}
use esp_owl.HashMap.Probe.{Element-cases, used-is_free}

-- No element from one index to before another is in use.
abbrev pub AreFree : {K V : Type 0} → Elements K V → ℕ → ℕ → Type 0
AreFree f from to = (j : ℕ) → from ≤ j → j < to → is_free (f j) ≡ true

abbrev ScanResult : {K V : Type 0} → Elements K V → ℕ → ℕ → Option (K × V) × ℕ → Type 0
ScanResult {K} {V} f from to r =
    ((r ≡ (none, to)) × AreFree f from to)
    ⊎ ((i : ℕ) × (k : K) × (v : V) × (from ≤ i)
        × (i < to)
        × (f i ≡ used k v)
        × AreFree f from i
        × (r ≡ (some (k, v), i)))

AreFree-cons :
    {K V : Type 0} (f : Elements K V) (from to : ℕ)
    → is_free (f from) ≡ true
    → AreFree f (from + 1) to
    → AreFree f from to
AreFree-cons f from to first rest j lower upper = elim (ℕ_cases j from) [
  | inl e ↦ rw e first
  | inr apart ↦ rest j (omega (arith, lower, apart)) upper
]

scan_cases :
    {K V : Type 0} (f : Elements K V) (n from to : ℕ)
    → from + n ≡ to
    → ScanResult f from to (scan f n from)
unfolding scan
scan_cases f zero from to e = inl (
  ap (λ (x : ℕ). (none, x)) (omega (arith, e)),
  λ j lower upper. absurd (omega (arith, e, lower, upper)),
)
scan_cases f (suc n) from to e = elim (Element-cases (f from)) [
  | inr (k, v, here) ↦ inr (
    from,
    k,
    v,
    omega arith,
    omega (arith, e),
    here,
    λ j lower upper. absurd (omega (arith, lower, upper)),
    rw (scan, here) refl,
  )
  | inl here ↦
      let first = ap is_free here in
      elim (scan_cases f n (from + 1) to (omega (arith, e))) [
        | inl (r, rest) ↦ inl (rw (scan, here) r, AreFree-cons f from to first rest)
        | inr (i, k, v, lower, upper, there, rest, r) ↦ inr (
          i,
          k,
          v,
          omega (arith, lower),
          upper,
          there,
          AreFree-cons f from i first rest,
          rw (scan, here) r,
        )
      ]
]

-- The iterator stops at the first entry that it has not passed, or says that there is none.
pub hashmap_it_next_lem :
    {K V : Type 0} (it : MapIt K V)
    → it.next ≤ it.map.table_size
    → let (status, entry, it') = hashmap_it_next it in
      ((status ≡ map_missing)
        × (entry ≡ none)
        × (it' ≡ record it { next = suc it.map.table_size })
        × AreFree it.map.elements it.next it.map.table_size)
      ⊎ ((i : ℕ) × (k : K) × (v : V) × (it.next ≤ i)
          × (i < it.map.table_size)
          × (it.map.elements i ≡ used k v)
          × AreFree it.map.elements it.next i
          × (status ≡ map_ok)
          × (entry ≡ some (k, v))
          × (it' ≡ record it { next = suc i }))
unfolding hashmap_it_next
hashmap_it_next_lem {K} {V} it bound =
    elim (scan_cases it.map.elements (it.map.table_size - it.next) it.next it.map.table_size
      (omega (arith, bound))) [
        | inl (r, rest) ↦
            rw (hashmap_it_next, r)
              (inl (
                refl,
                refl,
                ap (λ (x : ℕ). record it { next = suc x }) (ap (λ (q : Option (K × V) × ℕ). q.1) r),
                rest,
              ))
        | inr (i, k, v, lower, upper, there, rest, r) ↦
            rw (hashmap_it_next, r)
              (inr (
                i,
                k,
                v,
                lower,
                upper,
                there,
                rest,
                refl,
                refl,
                ap (λ (x : ℕ). record it { next = suc x }) (ap (λ (q : Option (K × V) × ℕ). q.1) r),
              ))
      ]

pub it_remove_at :
    (C : Keys) {V : Type 0} (m : HashMap C.Key V) (i : ℕ) (k : C.Key) (v : V)
    → i < m.table_size
    → m.elements i ≡ used k v
    → hashmap_it_remove C (record { map = m; next = suc i })
      ≡ (map_ok, record { map = blank C m i; next = suc i })
unfolding hashmap_it_remove
it_remove_at C m i k v bound here =
    let inside : leb m.table_size i ≡ false = ground (arith, bound) in
    let in_use : is_free (m.elements i) ≡ false = used-is_free (m.elements i) here in
    rw (inside, in_use) refl
