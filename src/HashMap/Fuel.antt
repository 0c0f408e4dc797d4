-- ===== src/HashMap/Fuel.antt =====
-- main/owl/hashmap.c: how often the table can be doubled.
use esp_owl.Base.{
  Bool, Bool-cases, Option-cases, ap, arith, inl, inr, refl, suc, sym, true, zero, ℕ, ◌*◌, ◌+◌, ◌<◌,
  ◌^◌, ◌∙◌, ◌≡◌, ◌≤◌,
}
use esp_owl.HashMap.Probe.{Element-cases}
use native.Mathlib.Nat.{mul-le-mul_right, mul_assoc, mul_left_comm}
use esp_owl.HashMap.{
  Elements, HashMap, Keys, MapStatus, Put, free, hashmap_hash, hashmap_put, hashmap_rehash, is_ok,
  map_full, map_missing, map_ok, map_omem, reinsert, retry, store,
}

module _ (C : Keys) {V : Type 0} (calloc : ℕ → Bool) where
  -- The table of the result is no smaller.
  abbrev Grows : Put C.Key V → Type 0
  Grows put =
      (key : C.Key) (v : V) (m : HashMap C.Key V) → m.table_size ≤ (put key v m).1.table_size

  reinsert-Grows :
      (put : Put C.Key V)
      → Grows put
      → (curr : Elements C.Key V) (n i : ℕ) (m : HashMap C.Key V)
      → m.table_size ≤ (reinsert C put curr n i m).1.table_size
  unfolding reinsert
  reinsert-Grows put grows curr zero i m = omega arith
  reinsert-Grows put grows curr (suc n) i m = elim (Element-cases (curr i)) [
    | inl e ↦ rw (reinsert, e) (reinsert-Grows put grows curr n (i + 1) m)
    | inr (k, v, e) ↦ elim (Bool-cases (is_ok (put k v m).0)) [
      | inl done ↦
          rw (reinsert, e, done)
            (omega (arith, grows k v m, reinsert-Grows put grows curr n (i + 1) (put k v m).1))
      | inr failed ↦ rw (reinsert, e, failed) (grows k v m)
    ]
  ]

  rehash-Grows :
      (put : Put C.Key V)
      → Grows put
      → (m : HashMap C.Key V) → m.table_size ≤ (hashmap_rehash C calloc put m).1.table_size
  unfolding hashmap_rehash
  rehash-Grows put grows m = elim (Bool-cases (calloc (2 * m.table_size))) [
    | inr refused ↦ rw (hashmap_rehash, refused) (omega arith)
    | inl given ↦
        let twice : HashMap C.Key V = record {
          table_size = 2 * m.table_size;
          size = 0;
          elements = λ _. free;
        } in
        rw (hashmap_rehash, given)
          (omega (arith, reinsert-Grows put grows m.elements m.table_size 0 twice))
  ]

  retry_grows :
      (least : ℕ) (r : MapStatus × HashMap C.Key V)
      (again : HashMap C.Key V → MapStatus × HashMap C.Key V)
      → least ≤ r.1.table_size
      → r.1.table_size ≤ (again r.1).1.table_size
      → least ≤ (retry C r again).1.table_size
  retry_grows least (map_omem, m) again h g = h
  retry_grows least (map_ok, m) again h g = omega (arith, h, g)
  retry_grows least (map_full, m) again h g = omega (arith, h, g)
  retry_grows least (map_missing, m) again h g = omega (arith, h, g)

  put-Grows : (fuel : ℕ) → Grows (hashmap_put C calloc fuel)
  unfolding hashmap_put store
  put-Grows zero key v m = omega arith
  put-Grows (suc fuel) key v m = elim (Option-cases (hashmap_hash C m key)) [
    | inr (i, place) ↦ rw (hashmap_put, place) (omega arith)
    | inl full ↦
        let put = hashmap_put C calloc fuel in
        let r = hashmap_rehash C calloc put m in
        rw (hashmap_put, full)
          (retry_grows m.table_size r (put key v) (rehash-Grows put (put-Grows fuel) m)
            (put-Grows fuel key v r.1))
  ]

  -- Two ways to insert that agree on tables of at least a size move the entries alike.
  reinsert_agree :
      (p q : Put C.Key V) (least : ℕ)
      → Grows p
      → ((key : C.Key) (v : V) (m : HashMap C.Key V) → least ≤ m.table_size → p key v m ≡ q key v m)
      → (curr : Elements C.Key V) (n i : ℕ) (m : HashMap C.Key V) → least ≤ m.table_size
      → reinsert C p curr n i m ≡ reinsert C q curr n i m
  unfolding reinsert
  reinsert_agree p q least grows agree curr zero i m h = refl
  reinsert_agree p q least grows agree curr (suc n) i m h = elim (Element-cases (curr i)) [
    | inl e ↦ rw (reinsert, e) (reinsert_agree p q least grows agree curr n (i + 1) m h)
    | inr (k, v, e) ↦
        let same_put = agree k v m h in
        elim (Bool-cases (is_ok (q k v m).0)) [
          | inl done ↦
              rw (reinsert, e, same_put, done)
                (reinsert_agree p q least grows agree curr n (i + 1) (q k v m).1 (
                  omega (
                    arith,
                    h,
                    grows k v m,
                    ap (λ (r : MapStatus × HashMap C.Key V). r.1.table_size) same_put,
                  )))
          | inr failed ↦ rw (reinsert, e, same_put, failed) refl
        ]
  ]

  module _ (p q : Put C.Key V) (m : HashMap C.Key V)
      (given : calloc (2 * m.table_size) ≡ true) where
    rehash_twice : Grows q → 2 * m.table_size ≤ (hashmap_rehash C calloc q m).1.table_size
    unfolding hashmap_rehash
    rehash_twice grows =
        rw (hashmap_rehash, given)
          (reinsert-Grows q grows m.elements m.table_size 0
            (record { table_size = 2 * m.table_size; size = 0; elements = λ _. free }))

    rehash_agree :
        Grows p
        → ((k : C.Key) (w : V) (m' : HashMap C.Key V)
            → 2 * m.table_size ≤ m'.table_size
            → p k w m' ≡ q k w m')
        → hashmap_rehash C calloc p m ≡ hashmap_rehash C calloc q m
    unfolding hashmap_rehash
    rehash_agree grows agree =
        rw (hashmap_rehash, given)
          (reinsert_agree p q (2 * m.table_size) grows agree m.elements m.table_size 0
            (record { table_size = 2 * m.table_size; size = 0; elements = λ _. free })
            (omega arith))

  retry_agree :
      (r : MapStatus × HashMap C.Key V) (p q : HashMap C.Key V → MapStatus × HashMap C.Key V)
      → p r.1 ≡ q r.1
      → retry C r p ≡ retry C r q
  retry_agree (map_omem, m) p q h = refl
  retry_agree (map_ok, m) p q h = h
  retry_agree (map_full, m) p q h = h
  retry_agree (map_missing, m) p q h = h

  put_suc :
      (f g : ℕ) (key : C.Key) (v : V) (m : HashMap C.Key V)
      → (calloc (2 * m.table_size) ≡ true
          → (k : C.Key) (w : V) (m' : HashMap C.Key V) → 2 * m.table_size ≤ m'.table_size
          → hashmap_put C calloc f k w m' ≡ hashmap_put C calloc g k w m')
      → hashmap_put C calloc (suc f) key v m ≡ hashmap_put C calloc (suc g) key v m
  unfolding hashmap_put hashmap_rehash
  put_suc f g key v m agree = elim (Option-cases (hashmap_hash C m key)) [
    | inr (i, place) ↦ rw (hashmap_put, place) refl
    | inl full ↦ elim (Bool-cases (calloc (2 * m.table_size))) [
      | inr refused ↦ rw (hashmap_put, full, hashmap_rehash, refused) refl
      | inl given ↦
          let p = hashmap_put C calloc f in
          let q = hashmap_put C calloc g in
          let twice = rehash_twice q q m given (put-Grows g) in
          rw (hashmap_put, full)
            (ap (λ r. retry C r (p key v)) (rehash_agree p q m given (put-Grows f) (agree given))
              ∙ retry_agree (hashmap_rehash C calloc q m) (p key v) (q key v)
                  (agree given key v (hashmap_rehash C calloc q m).1 twice))
    ]
  ]

doubled : (a b n limit : ℕ) → 2 * a ≤ b → limit < a * 2 ^ suc n → limit < b * 2 ^ n
doubled a b n limit h lt =
    let two : 2 ^ suc n ≡ 2 * 2 ^ n = omega arith in
    let times = mul_left_comm a 2 (2 ^ n) ∙ sym (mul_assoc 2 a (2 ^ n)) in
    let more : 2 * a * 2 ^ n ≤ b * 2 ^ n = mul-le-mul_right (2 ^ n) h in
    omega (arith, lt, ap (λ x. a * x) two, times, more)

-- When no table of more than `limit` elements can be had, then as many doublings as lead beyond
-- it are all that can take place: with any two such amounts of fuel the result is the same.
pub hashmap_put_enough :
    (C : Keys) {V : Type 0} (calloc : ℕ → Bool) (limit : ℕ) (f g : ℕ) (key : C.Key) (v : V)
    (m : HashMap C.Key V)
    → ((n : ℕ) → calloc n ≡ true → n ≤ limit)
    → limit < m.table_size * 2 ^ f
    → limit < m.table_size * 2 ^ g
    → hashmap_put C calloc (suc f) key v m ≡ hashmap_put C calloc (suc g) key v m
hashmap_put_enough C calloc limit zero g key v m bound hf hg =
    put_suc C calloc zero g key v m
      (λ given. absurd (omega (arith, hf, bound (2 * m.table_size) given)))
hashmap_put_enough C calloc limit (suc f) zero key v m bound hf hg =
    put_suc C calloc (suc f) zero key v m
      (λ given. absurd (omega (arith, hg, bound (2 * m.table_size) given)))
hashmap_put_enough C calloc limit (suc f) (suc g) key v m bound hf hg =
    put_suc C calloc (suc f) (suc g) key v m (λ given k w m' larger.
      hashmap_put_enough C calloc limit f g k w m' bound
        (doubled m.table_size m'.table_size f limit larger hf)
        (doubled m.table_size m'.table_size g limit larger hg))
