-- ===== src/HashMap/Move.antt =====
-- main/owl/hashmap.c: the loop that moves the entries of an array to another table.
use esp_owl.Base.{
  Bool-cases, ap, arith, false, inl, inr, none, refl, some, subst, suc, sym, zero, ℕ, ℕ_cases, ◌+◌,
  ◌<◌, ◌∙◌, ◌≡◌, ◌≢◌, ◌≤◌, ◌⊎◌,
}
use esp_owl.HashMap.{
  Elements, HashMap, Keys, MapStatus, Put, free, hashmap_hash_int, holds, index_of, is_free, map_ok,
  map_omem, max_chain_length, reinsert, used,
}
use esp_owl.HashMap.Probe.{Element-cases, holds-used, probe_get_empty, used-holds, used-injective}
use esp_owl.HashMap.Valid.{IsValid, count, holds_only}
use esp_owl.HashMap.Lookup.{lookup, lookup_at, lookup_cases, lookup_missing}
use mathlib.Core.Bool.{true≢false}
use mathlib.Core.Option.{none-ne-some, some-injective}

count_empty : {K V : Type 0} (f : Elements K V) → ((i : ℕ) → f i ≡ free) → (n : ℕ) → count f n ≡ 0
count_empty f h zero = refl
count_empty f h (suc n) = rw (h n) (omega (arith, count_empty f h n))

module _ (C : Keys) {V : Type 0} where
  -- What the result of an insertion has to be: a map in good order and not smaller, whose entries
  -- are the old ones and the new one unless there was no memory, and then `Why` holds.
  abbrev pub IsAdded :
      (C.Key → HashMap C.Key V → Type 0)
      → HashMap C.Key V
      → C.Key
      → V
      → MapStatus × HashMap C.Key V
      → Type 0
  IsAdded Why m key v r =
      IsValid C r.1
      × (m.table_size ≤ r.1.table_size)
      × (((r.0 ≡ map_omem) × Why key m)
          ⊎ ((r.0 ≡ map_ok)
              × (lookup C r.1 key ≡ some v)
              × ((b : C.Key) → key ≢ b → lookup C r.1 b ≡ lookup C m b)))

  abbrev pub Adds : (C.Key → HashMap C.Key V → Type 0) → Put C.Key V → Type 0
  Adds Why put =
      (key : C.Key) (v : V) (m : HashMap C.Key V)
      → IsValid C m
      → lookup C m key ≡ none
      → IsAdded Why m key v (put key v m)

  -- The table that `calloc` leaves, of any size.
  abbrev pub empty : ℕ → HashMap C.Key V
  empty n = record { table_size = n; size = 0; elements = λ _. free }

  pub empty-IsValid : (n : ℕ) → 0 < n → IsValid C (empty n)
  empty-IsValid n h = record {
    nonempty = h;
    found = λ i k v bound e. absurd (true≢false (ap is_free e));
    counted = omega (arith, count_empty (λ _. free) (λ i. refl) n);
  }

  pub lookup-empty : (n : ℕ) (key : C.Key) → lookup C (empty n) key ≡ none
  unfolding index_of
  lookup-empty n key = lookup_missing C (empty n) key (
      probe_get_empty C (λ _. free) n key max_chain_length (hashmap_hash_int C (empty n) key)
        (λ i. refl))

module _ (C : Keys) {V : Type 0} {old : HashMap C.Key V} (ok : IsValid C old) where
  -- The entries below an index have been moved, and no other.
  pub record IsMoved (i : ℕ) (m : HashMap C.Key V) : Type 0 where
    pub valid : IsValid C m
    pub moved :
        (j : ℕ) (k : C.Key) (v : V) → j < i → old.elements j ≡ used k v → lookup C m k ≡ some v
    pub only :
        (b : C.Key) → ((j : ℕ) → j < i → holds C (old.elements j) b ≡ false) → lookup C m b ≡ none

  skip_free :
      (i : ℕ) (m : HashMap C.Key V) → old.elements i ≡ free → IsMoved i m → IsMoved (i + 1) m
  skip_free i m e s = record {
    valid = s.valid;
    moved = λ j k v h there. elim (ℕ_cases j i) [
      | inl ji ↦ absurd (true≢false (ap is_free (sym e ∙ ap old.elements (sym ji) ∙ there)))
      | inr apart ↦ s.moved j k v (omega (arith, h, apart)) there
    ];
    only = λ b none_holds. s.only b (λ j h. none_holds j (omega (arith, h)));
  }

  still_missing :
      (i : ℕ) (m : HashMap C.Key V) (k : C.Key) (v : V)
      → i < old.table_size
      → old.elements i ≡ used k v
      → IsMoved i m
      → lookup C m k ≡ none
  still_missing i m k v bound e s = s.only k (λ j h.
      elim (Bool-cases (holds C (old.elements j) k)) [
        | inr none_holds ↦ none_holds
        | inl there ↦
            let same_index =
              holds_only C ok k j i (omega (arith, h, bound)) (ok.found i k v bound e) there in
            absurd (omega (arith, h, same_index))
      ])

  move :
      (i : ℕ) (m m' : HashMap C.Key V) (k : C.Key) (v : V)
      → i < old.table_size
      → old.elements i ≡ used k v
      → IsMoved i m
      → IsValid C m'
      → lookup C m' k ≡ some v
      → ((b : C.Key) → k ≢ b → lookup C m' b ≡ lookup C m b)
      → IsMoved (i + 1) m'
  move i m m' k v bound e s valid self others = record {
    valid = valid;
    moved = λ j q w h there. elim (ℕ_cases j i) [
      | inl ji ↦
          let (kq, vw) = used-injective (sym e ∙ ap old.elements (sym ji) ∙ there) in
          ap (lookup C m') (sym kq) ∙ self ∙ ap some vw
      | inr apart ↦
          others q (λ kq. apart (
            some-injective j i (
              sym (ok.found j q w (omega (arith, h, bound)) there)
              ∙ ap (index_of C old) (sym kq)
              ∙ ok.found i k v bound e)))
          ∙ s.moved j q w (omega (arith, h, apart)) there
    ];
    only = λ b none_holds.
        others b (λ kb. true≢false (
          sym (used-holds C (old.elements i) (e ∙ ap (λ (q : C.Key). used q v) kb))
          ∙ none_holds i (omega arith)))
        ∙ s.only b (λ j h. none_holds j (omega (arith, h)));
  }

  pub all_moved :
      (m : HashMap C.Key V) → IsMoved old.table_size m → (b : C.Key) → lookup C m b ≡ lookup C old b
  all_moved m s b = elim (lookup_cases C ok b) [
    | inr (i, v, bound, e, here, found) ↦ s.moved i b v bound here ∙ sym found
    | inl (missing, gone) ↦
        s.only b (λ j h. elim (Bool-cases (holds C (old.elements j) b)) [
          | inr none_holds ↦ none_holds
          | inl there ↦
              let (v, is_used) = holds-used C (old.elements j) b there in
              absurd (none-ne-some j (sym missing ∙ ok.found j b v h is_used))
        ])
        ∙ sym gone
  ]

  -- While entries are moved, the new table has no others.
  within :
      (i : ℕ) (m : HashMap C.Key V)
      → i ≤ old.table_size
      → IsMoved i m
      → (b : C.Key) → lookup C old b ≡ none
      → lookup C m b ≡ none
  within i m bound s b gone = elim (lookup_cases C ok b) [
    | inr (j, v, j_bound, e, here, found) ↦ absurd (none-ne-some v (sym gone ∙ found))
    | inl (missing, _) ↦ s.only b (λ j h. elim (Bool-cases (holds C (old.elements j) b)) [
      | inr none_holds ↦ none_holds
      | inl there ↦
          let (v, is_used) = holds-used C (old.elements j) b there in
          absurd (none-ne-some j (sym missing ∙ ok.found j b v (omega (arith, h, bound)) is_used))
    ])
  ]

  -- An entry of the old table cannot be put into a table of at least a given size that has only
  -- entries of the old one.
  pub record Blocked (Why : C.Key → HashMap C.Key V → Type 0) (n : ℕ) : Type 0 where
    pub key : C.Key
    pub value : V
    pub table : HashMap C.Key V
    pub entry : lookup C old key ≡ some value
    pub valid : IsValid C table
    pub large : n ≤ table.table_size
    pub inside : (b : C.Key) → lookup C old b ≡ none → lookup C table b ≡ none
    pub why : Why key table

  smaller :
      (Why : C.Key → HashMap C.Key V → Type 0) (m n : ℕ) → m ≤ n → Blocked Why n → Blocked Why m
  smaller Why m n h s = record {
    key = s.key;
    value = s.value;
    table = s.table;
    entry = s.entry;
    valid = s.valid;
    large = omega (arith, h, s.large);
    inside = s.inside;
    why = s.why;
  }

  entry_of :
      (i : ℕ) (k : C.Key) (v : V)
      → i < old.table_size
      → old.elements i ≡ used k v
      → lookup C old k ≡ some v
  entry_of i k v bound here = lookup_at C old k k i v (ok.found i k v bound here) here

  pub reinsert_lem :
      (Why : C.Key → HashMap C.Key V → Type 0) (put : Put C.Key V)
      → Adds C Why put
      → (n i : ℕ) (m : HashMap C.Key V) → i + n ≡ old.table_size
      → IsMoved i m
      → let r = reinsert C put old.elements n i m in
        IsValid C r.1
        × (m.table_size ≤ r.1.table_size)
        × (((r.0 ≡ map_omem) × Blocked Why m.table_size)
            ⊎ ((r.0 ≡ map_ok) × IsMoved old.table_size r.1))
  unfolding reinsert
  reinsert_lem Why put adds zero i m e s =
      (s.valid, omega arith, inr (refl, subst (λ (k : ℕ). IsMoved k m) (omega (arith, e)) s))
  reinsert_lem Why put adds (suc n) i m e s = elim (Element-cases (old.elements i)) [
    | inl e_free ↦
        rw (reinsert, e_free)
          (reinsert_lem Why put adds n (i + 1) m (omega (arith, e)) (skip_free i m e_free s))
    | inr (k, v, here) ↦
        let bound : i < old.table_size = omega (arith, e) in
        let (valid, grows, result) = adds k v m s.valid (still_missing i m k v bound here s) in
        elim result [
          | inl (omem, why) ↦
              let blocked : Blocked Why m.table_size = record {
                key = k;
                value = v;
                table = m;
                entry = entry_of i k v bound here;
                valid = s.valid;
                large = omega arith;
                inside = within i m (omega (arith, e)) s;
                why = why;
              } in
              rw (reinsert, here, omem) (valid, grows, inl (refl, blocked))
          | inr (added, self, others) ↦
              let m' = (put k v m).1 in
              let (later, larger, rest) =
                reinsert_lem Why put adds n (i + 1) m' (omega (arith, e))
                  (move i m m' k v bound here s valid self others) in
              rw (reinsert, here, added)
                (
                  later,
                  omega (arith, grows, larger),
                  elim rest [
                    | inl (omem, blocked) ↦
                        inl (omem, smaller Why m.table_size m'.table_size grows blocked)
                    | inr done ↦ inr done
                  ],
                )
        ]
  ]
