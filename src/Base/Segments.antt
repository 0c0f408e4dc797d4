-- ===== src/Base/Segments.antt =====
-- The part of an array of size `m` that begins at an index and goes around its end.
use Prim.Native.Nat.{ℕ, zero, suc, ◌+◌, ◌-◌, ◌%◌, ◌≤◌, ◌<◌}
use mathlib.Core.Path.{◌≡◌, refl, sym, ap, ap₂, subst, ◌∙◌}
use mathlib.Core.Logic.{◌≢◌, ◌⊎◌, inl, inr}
use mathlib.Core.List.{List, [], ◌∷◌, ◌++◌}
use mathlib.Core.Option.{some}
use native.Mathlib.Omega.{arith}
use native.Mathlib.Nat.{mod-eq_of_lt, mod_self}
use esp_owl.Base.Tests.{if◌then◌else◌, ltb}
use esp_owl.Base.Lists.{length, get_elem?, set, drop}
use esp_owl.Base.Arrays.{put_at, put_at_self, put_at_other}

-- The index that is `n` places behind `i`.
abbrev pub around : ℕ → ℕ → ℕ → ℕ
around m i n = if ltb (i + n) m then i + n else i + n - m

abbrev pub segment {ℓ} : {A : Type ℓ} → (ℕ → A) → ℕ → ℕ → ℕ → List A
segment f m i zero = []
segment f m i (suc n) = f i ∷ segment f m (around m i 1) n

last_or_not : (m i : ℕ) → i < m → (i + 1 ≡ m) ⊎ (i + 1 < m)
last_or_not m i h = ground (arith, h)

-- The source writes the next index as a remainder.
pub next_lem : (m i : ℕ) → i < m → (i + 1) % m ≡ around m i 1
next_lem m i h = elim (last_or_not m i h) [
  | inl e ↦ rw e (mod_self m ∙ ground (arith, e))
  | inr lt ↦ mod-eq_of_lt lt ∙ ground (arith, lt)
]

pub around-lt : (m i n : ℕ) → i < m → n ≤ m → around m i n < m
around-lt m i n hi hn = ground (arith, hi, hn)

pub around_next : (m i n : ℕ) → i < m → n < m → around m (around m i 1) n ≡ around m i (suc n)
around_next m i n hi hn = ground (arith, hi, hn)

module _ {A : Type 0} where
  pub length-segment : (f : ℕ → A) (m i n : ℕ) → length (segment f m i n) ≡ n
  length-segment f m i zero = refl
  length-segment f m i (suc n) = ap suc (length-segment f m (around m i 1) n)

  pub segment_snoc :
      (f : ℕ → A) (m i n : ℕ)
      → i < m
      → n < m
      → segment f m i (suc n) ≡ segment f m i n ++ (f (around m i n) ∷ [])
  segment_snoc f m i zero hi hn = let same : around m i 0 ≡ i = ground (arith, hi) in rw same refl
  segment_snoc f m i (suc n) hi hn =
      let next = around-lt m i 1 hi (omega (arith, hn)) in
      let rest = segment_snoc f m (around m i 1) n next (omega (arith, hn)) in
      let place = around_next m i n hi (omega (arith, hn)) in
      ap (λ (r : List A). f i ∷ r)
        (rest ∙ ap (λ (k : ℕ). segment f m (around m i 1) n ++ (f k ∷ [])) place)

  -- A store behind a segment leaves it.
  pub segment-put_at :
      (f : ℕ → A) (m i n k : ℕ) (x : A)
      → i < m
      → n ≤ k
      → k < m
      → segment (put_at f (around m i k) x) m i n ≡ segment f m i n
  segment-put_at f m i zero k x hi hn hk = refl
  segment-put_at f m i (suc n) zero x hi hn hk = absurd (omega (arith, hn))
  segment-put_at f m i (suc n) (suc k) x hi hn hk =
      let next = around-lt m i 1 hi (omega (arith, hk)) in
      let place = around_next m i k hi (omega (arith, hk)) in
      let apart : i ≢ around m i (suc k) = λ e. absurd (ground (arith, hi, hk, e)) in
      ap₂ (λ (a : A) (r : List A). a ∷ r) (put_at_other f (around m i (suc k)) i x apart)
        (subst (λ (p : ℕ). segment (put_at f p x) m (around m i 1) n ≡ segment f m (around m i 1) n)
          place
          (segment-put_at f m (around m i 1) n k x next (omega (arith, hn)) (omega (arith, hk))))

  -- A store within a segment.
  pub segment-put_at_within :
      (f : ℕ → A) (m i n k : ℕ) (x : A)
      → i < m
      → n ≤ m
      → k < n
      → segment (put_at f (around m i k) x) m i n ≡ set (segment f m i n) k x
  segment-put_at_within f m i zero k x hi hn hk = absurd (omega (arith, hk))
  segment-put_at_within f m i (suc n) zero x hi hn hk =
      let here : around m i 0 ≡ i = ground (arith, hi) in
      let last : around m (around m i 1) (m - 1) ≡ i = ground (arith, hi, hn) in
      let rest =
        segment-put_at f m (around m i 1) n (m - 1) x (around-lt m i 1 hi (omega (arith, hn)))
          (omega (arith, hn)) (omega (arith, hn)) in
      subst (λ (p : ℕ). segment (put_at f p x) m i (suc n) ≡ set (segment f m i (suc n)) 0 x)
        (sym here)
        (ap₂ (λ (a : A) (r : List A). a ∷ r) (put_at_self f i x)
          (subst
            (λ (p : ℕ). segment (put_at f p x) m (around m i 1) n ≡ segment f m (around m i 1) n)
            last rest))
  segment-put_at_within f m i (suc n) (suc k) x hi hn hk =
      let next = around-lt m i 1 hi (omega (arith, hn)) in
      let place = around_next m i k hi (omega (arith, hn, hk)) in
      let apart : i ≢ around m i (suc k) = λ e. absurd (ground (arith, hi, hn, hk, e)) in
      ap₂ (λ (a : A) (r : List A). a ∷ r) (put_at_other f (around m i (suc k)) i x apart)
        (subst
          (λ (p : ℕ).
            segment (put_at f p x) m (around m i 1) n ≡ set (segment f m (around m i 1) n) k x)
          place
          (segment-put_at_within f m (around m i 1) n k x next (omega (arith, hn))
            (omega (arith, hk))))

  pub get_elem?-segment :
      (f : ℕ → A) (m i n k : ℕ)
      → i < m
      → n ≤ m
      → k < n
      → get_elem? (segment f m i n) k ≡ some (f (around m i k))
  get_elem?-segment f m i zero k hi hn hk = absurd (omega (arith, hk))
  get_elem?-segment f m i (suc n) zero hi hn hk =
      let same : around m i 0 ≡ i = ground (arith, hi) in rw same refl
  get_elem?-segment f m i (suc n) (suc k) hi hn hk =
      let next = around-lt m i 1 hi (omega (arith, hn)) in
      get_elem?-segment f m (around m i 1) n k next (omega (arith, hn)) (omega (arith, hk))
      ∙ ap (λ (j : ℕ). some (f j)) (around_next m i k hi (omega (arith, hn, hk)))

module _ {A : Type 0} where
  -- A store at the place behind a segment makes it longer.
  pub segment-push :
      (f : ℕ → A) (m i n p : ℕ) (x : A)
      → i < m
      → n < m
      → p ≡ around m i n
      → segment (put_at f p x) m i (suc n) ≡ segment f m i n ++ (x ∷ [])
  segment-push f m i n p x hi hn place =
      let g = put_at f (around m i n) x in
      ap (λ (q : ℕ). segment (put_at f q x) m i (suc n)) place
      ∙ segment_snoc g m i n hi hn
      ∙ ap₂ (λ (xs : List A) (a : A). xs ++ (a ∷ []))
          (segment-put_at f m i n n x hi (omega arith) hn) (put_at_self f (around m i n) x)

  -- A store at the begin of a segment that goes all around takes its first element away.
  pub segment-push_over :
      (f : ℕ → A) (m i p : ℕ) (x : A)
      → i < m
      → p ≡ i
      → segment (put_at f p x) m (around m i 1) m ≡ drop 1 (segment f m i m) ++ (x ∷ [])
  segment-push_over f zero i p x hi place = absurd (omega (arith, hi))
  segment-push_over f (suc m) i p x hi place =
      let m' = suc m in
      segment-push f m' (around m' i 1) m p x (around-lt m' i 1 hi (omega arith)) (omega arith)
        (place ∙ ground (arith, hi))

-- Adding to a queue of at most `max` elements: when it is full, the oldest makes room.
abbrev pub push {ℓ} : {A : Type ℓ} → ℕ → List A → A → List A
push max q x = if ltb (length q) max then q ++ (x ∷ []) else drop 1 q ++ (x ∷ [])

pub segment-push_full :
    {A : Type 0} (f : ℕ → A) (m i n p : ℕ) (x : A)
    → i < m
    → n ≡ m
    → p ≡ i
    → segment (put_at f p x) m (around m i 1) n ≡ drop 1 (segment f m i n) ++ (x ∷ [])
segment-push_full {A} f m i n p x hi full place =
    subst
      (λ (k : ℕ). segment (put_at f p x) m (around m i 1) k ≡ drop 1 (segment f m i k) ++ (x ∷ []))
      (sym full) (segment-push_over f m i p x hi place)

-- A store at the place before a segment.
pub segment-unshift :
    {A : Type 0} (f : ℕ → A) (m i n : ℕ) (x : A)
    → i < m
    → n < m
    → segment (put_at f (around m i (m - 1)) x) m (around m i (m - 1)) (suc n) ≡ x ∷ segment f m i n
segment-unshift {A} f m i n x hi hn =
    let p = around m i (m - 1) in
    let next : around m (around m i (m - 1)) 1 ≡ i = ground (arith, hi) in
    ap₂ (λ (a : A) (r : List A). a ∷ r) (put_at_self f p x)
      (ap (λ (q : ℕ). segment (put_at f p x) m q n) next
        ∙ segment-put_at f m i n (m - 1) x hi (omega (arith, hn)) (omega (arith, hi)))
