-- ===== src/Base/Bits.antt =====
-- `&` with a mask of low bits, as a remainder; the native operation is a recursion on digits.
use Prim.Native.Nat.{digits, bit_and-bitwise}
use native.Mathlib.Nat.{pow-suc, one-le-pow, le_refl}
use Prim.Native.Nat.{ℕ, zero, suc, ◌+◌, ◌-◌, ◌*◌, ◌/◌, ◌%◌, ◌^◌, ◌≤◌, ◌<◌, min, bit_and}
use mathlib.Core.Path.{◌≡◌, refl, ap, ◌∙◌}
use native.Mathlib.Omega.{arith}

abbrev anded : ℕ → ℕ → ℕ → ℕ
anded fuel a b = digits (λ _. 0) min fuel a b

anded_nothing : (fuel a : ℕ) → anded fuel a 0 ≡ 0
anded_nothing zero a = refl
anded_nothing (suc fuel) zero = refl
anded_nothing (suc fuel) (suc a) = omega (arith, anded_nothing fuel (suc a / 2))

-- Cutting `q * 2 ^ k + r` to its `k` low bits gives `r`, with any fuel that the digits fit.
anded_low :
    (k fuel q r a : ℕ) → a ≡ q * 2 ^ k + r → r < 2 ^ k → a ≤ fuel → anded fuel a (2 ^ k - 1) ≡ r
anded_low zero fuel q r a e low h = rw anded_nothing (omega arith)
anded_low (suc k) zero q r a e low h = omega arith
anded_low (suc k) (suc fuel) q r zero e low h = omega arith
anded_low (suc k) (suc fuel) q r (suc a) e low h =
    let double : q * 2 ^ suc k ≡ 2 * (q * 2 ^ k) =
      omega (arith, ap (λ (t : ℕ). q * t) (pow-suc 2 k)) in
    let halves : (2 ^ suc k - 1) / 2 ≡ 2 ^ k - 1 = omega (arith, pow-suc 2 k) in
    let rest : anded fuel (suc a / 2) (2 ^ k - 1) ≡ r / 2 =
      anded_low k fuel q (r / 2) (suc a / 2) (omega arith) (omega (arith, pow-suc 2 k))
        (omega arith) in
    rw (halves, rest) (omega (arith, pow-suc 2 k, one-le-pow k 2))

mod_parts : (k a : ℕ) → (a ≡ a / 2 ^ k * 2 ^ k + a % 2 ^ k) × (a % 2 ^ k < 2 ^ k)
mod_parts k a = (grind (arith, one-le-pow k 2), omega (arith, one-le-pow k 2))

-- `x & (2 ^ k - 1)` is the remainder by `2 ^ k`.
pub bit_and-low : (k a : ℕ) → bit_and a (2 ^ k - 1) ≡ a % 2 ^ k
bit_and-low k a =
    bit_and-bitwise a (2 ^ k - 1)
    ∙ anded_low k a (a / 2 ^ k) (a % 2 ^ k) a (mod_parts k a).0 (mod_parts k a).1 (le_refl a)

-- A mask with a zero digit put below it.
anded_double :
    (mask : ℕ) (cut : ℕ → ℕ)
    → cut 0 ≡ 0
    → ((fuel a : ℕ) → a ≤ fuel → anded fuel a mask ≡ cut a)
    → (fuel a : ℕ) → a ≤ fuel
    → anded fuel a (2 * mask) ≡ 2 * cut (a / 2)
anded_double mask cut z below zero zero h = omega arith
anded_double mask cut z below zero (suc a) h = absurd (omega arith)
anded_double mask cut z below (suc fuel) zero h = omega arith
anded_double mask cut z below (suc fuel) (suc a) h =
    let half : 2 * mask / 2 ≡ mask = omega arith in
    rw (half, below fuel (suc a / 2) (omega arith)) (omega arith)

-- `x & 0xfffc` of 16 bits clears the two lowest.
pub bit_and_clear_two : (a : ℕ) → a < 2 ^ 16 → bit_and a 0xfffc ≡ a - a % 4
bit_and_clear_two a h =
    bit_and-bitwise a 0xfffc
    ∙ anded_double 0x7ffe (λ x. 2 * (x / 2 % 2 ^ 14)) refl
        (anded_double 0x3fff (λ x. x % 2 ^ 14) refl
          (λ fuel x le.
            anded_low 14 fuel (x / 2 ^ 14) (x % 2 ^ 14) x (omega arith) (omega arith) le))
        a a (le_refl a)
    ∙ omega arith
