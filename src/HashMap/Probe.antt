-- ===== src/HashMap/Probe.antt =====
-- main/owl/hashmap.c: where the linear probing ends, and what a store at one index does to it.
use esp_owl.Base.{
  ==_refl, Bool-cases, ap, arith, false, inl, inr, none, put_at, put_at_cases, refl, some, subst,
  suc, true, zero, ℕ, ◌%◌, ◌+◌, ◌<◌, ◌≡◌, ◌≢◌, ◌⊎◌,
}
use mathlib.Core.Option.{some-injective}
use esp_owl.HashMap.{
  Element, Elements, Keys, free, holds, is_free, probe_get, probe_hash, used, value_of,
}

pub used-is_free :
    {K V : Type 0} (e : Element K V) {k : K} {v : V} → e ≡ used k v → is_free e ≡ false
used-is_free e h = rw h refl

pub Element-cases :
    {K V : Type 0} (e : Element K V) → (e ≡ free) ⊎ ((k : K) × (v : V) × (e ≡ used k v))
Element-cases free = inl refl
Element-cases (used k v) = inr (k, v, refl)

abbrev key_or : {K V : Type 0} → K → Element K V → K
key_or d free = d
key_or d (used k v) = k

pub used-injective : {K V : Type 0} {k q : K} {v w : V} → used k v ≡ used q w → (k ≡ q) × (v ≡ w)
used-injective {K} {V} {k} {q} {v} {w} e = (ap (key_or k) e, some-injective v w (ap value_of e))

module _ (C : Keys) {V : Type 0} where
  pub holds-used :
      (e : Element C.Key V) (key : C.Key) → holds C e key ≡ true → (v : V) × (e ≡ used key v)
  holds-used free key h = cc
  holds-used (used k v) key h = (v, ap (λ (q : C.Key). used q v) (C.same-eq k key h))

  pub used-holds :
      (e : Element C.Key V) {key : C.Key} {v : V} → e ≡ used key v → holds C e key ≡ true
  used-holds e {key} h = rw h (C.same_refl key)

  pub holds_other : (a b : C.Key) (v : V) → a ≢ b → holds C (used a v) b ≡ false
  holds_other a b v apart = elim (Bool-cases (C.same a b)) [
    | inl e ↦ absurd (apart (C.same-eq a b e))
    | inr e ↦ e
  ]

  pub free-holds : (e : Element C.Key V) (key : C.Key) → is_free e ≡ true → holds C e key ≡ false
  free-holds free key h = refl
  free-holds (used k v) key h = cc

  module _ (elements : Elements C.Key V) (n : ℕ) (key : C.Key) where
    pub probe_get-holds :
        (r c i : ℕ)
        → c < n
        → probe_get C elements n key r c ≡ some i
        → (i < n) × (holds C (elements i) key ≡ true)
    unfolding probe_get
    probe_get-holds zero c i h e = ground (arith, e)
    probe_get-holds (suc r) c i h e = elim (Bool-cases (holds C (elements c) key)) [
      | inl here ↦
          let ci : c ≡ i = ground (arith, here, e) in
          (omega (arith, h, ci), subst (λ (x : ℕ). holds C (elements x) key ≡ true) ci here)
      | inr no_match ↦
          probe_get-holds r ((c + 1) % n) i (omega (arith, h)) (ground (arith, no_match, e))
    ]

    -- A store that leaves whether the key is there leaves the search for it.
    pub probe_get_same :
        (r c i : ℕ) (x : Element C.Key V)
        → holds C x key ≡ holds C (elements i) key
        → probe_get C (put_at elements i x) n key r c ≡ probe_get C elements n key r c
    unfolding probe_get
    probe_get_same zero c i x h = refl
    probe_get_same (suc r) c i x h =
        let same_test : holds C (put_at elements i x c) key ≡ holds C (elements c) key =
          elim (put_at_cases elements i c x) [
            | inl (e, at) ↦ rw at (rw e h)
            | inr (_, at) ↦ rw at refl
          ] in
        rw (same_test, probe_get_same r ((c + 1) % n) i x h) refl

    -- Of a key that is not there, the place that is found is free, and a search finds it there
    -- after it is stored.
    pub probe_hash-place :
        (r c i : ℕ) (v : V)
        → c < n
        → probe_get C elements n key r c ≡ none
        → probe_hash C elements n key r c ≡ some i
        → (i < n)
          × (is_free (elements i) ≡ true)
          × (probe_get C (put_at elements i (used key v)) n key r c ≡ some i)
    unfolding probe_get probe_hash
    probe_hash-place zero c i v h missing e = ground (arith, e)
    probe_hash-place (suc r) c i v h missing e = elim (Bool-cases (is_free (elements c))) [
      | inl here ↦
          let ci : c ≡ i = ground (arith, here, e) in
          (
            omega (arith, h, ci),
            subst (λ (x : ℕ). is_free (elements x) ≡ true) ci here,
            rw ci (rw (==_refl i, C.same_refl key) refl),
          )
      | inr not_free ↦
          let no_match : holds C (elements c) key ≡ false = ground (arith, missing) in
          let (bound, is_free_there, found) =
            probe_hash-place r ((c + 1) % n) i v (omega (arith, h))
              (ground (arith, no_match, missing)) (ground (arith, not_free, no_match, e)) in
          (
            bound,
            is_free_there,
            elim (put_at_cases elements i c (used key v)) [
              | inl (ci, at) ↦ rw (at, C.same_refl key) (ap some ci)
              | inr (_, at) ↦ rw (at, no_match) found
            ],
          )
    ]

  pub probe_get_empty :
      (elements : Elements C.Key V) (n : ℕ) (key : C.Key) (r c : ℕ)
      → ((i : ℕ) → is_free (elements i) ≡ true)
      → probe_get C elements n key r c ≡ none
  unfolding probe_get
  probe_get_empty elements n key zero c h = refl
  probe_get_empty elements n key (suc r) c h =
      rw (free-holds (elements c) key (h c)) (probe_get_empty elements n key r ((c + 1) % n) h)
