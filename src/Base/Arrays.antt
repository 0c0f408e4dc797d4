-- ===== src/Base/Arrays.antt =====
-- Arrays as functions of the index.
use Prim.Native.Nat.{ℕ}
use mathlib.Core.Path.{◌≡◌, refl}
use mathlib.Core.Logic.{◌≢◌, ◌⊎◌, inl, inr}
use mathlib.Core.Bool.{false}
use native.Mathlib.Omega.{arith}
use esp_owl.Base.Tests.{if◌then◌else◌, ◌==◌, ==_refl, ℕ_cases}

-- A store at one index.
abbrev pub put_at : {A : Type 0} → (ℕ → A) → ℕ → A → ℕ → A
put_at f i x j = if j == i then x else f j

pub put_at_self : {A : Type 0} (f : ℕ → A) (i : ℕ) (x : A) → put_at f i x i ≡ x
put_at_self f i x = rw (==_refl i) refl

pub put_at_other : {A : Type 0} (f : ℕ → A) (i j : ℕ) (x : A) → j ≢ i → put_at f i x j ≡ f j
put_at_other f i j x apart = let e : (j == i) ≡ false = ground (arith, apart) in rw e refl

pub put_at_cases :
    {A : Type 0} (f : ℕ → A) (i j : ℕ) (x : A)
    → ((j ≡ i) × (put_at f i x j ≡ x)) ⊎ ((j ≢ i) × (put_at f i x j ≡ f j))
put_at_cases f i j x = elim (ℕ_cases j i) [
  | inl e ↦ inl (e, rw e (put_at_self f i x))
  | inr apart ↦ inr (apart, put_at_other f i j x apart)
]
