-- ===== src/Base/Bytes.antt =====
-- Byte strings: little- and big-endian numbers, memcmp, and writes of several bytes.
use Prim.Native.Nat.{ℕ, zero, suc, ◌+◌, ◌*◌, ◌/◌, ◌%◌, ◌^◌, ◌≤◌, ◌<◌, compare, Ordering}
use mathlib.Core.Path.{◌≡◌, refl, ap, ◌∙◌}
use mathlib.Core.Logic.{◌⊎◌}
use mathlib.Core.List.{List, [], ◌∷◌, ◌++◌}
use native.Mathlib.Omega.{arith}
use native.Mathlib.Nat.{pow-suc}
use esp_owl.Base.Lists.{
  length, get_elem?, set, take, drop, All, length-set, take-set, drop-set, drop-set_self,
  get_elem?-set_ne,
}

abbrev pub IsByte : ℕ → Type 0
IsByte b = b < 256

-- The `k` low bytes of a number, the lowest first.
abbrev pub le_bytes : ℕ → ℕ → List ℕ
le_bytes zero v = []
le_bytes (suc k) v = v % 256 ∷ le_bytes k (v / 256)

abbrev pub le_value : List ℕ → ℕ
le_value [] = 0
le_value (b ∷ bs) = b + 256 * le_value bs

-- The highest first: each further byte is put behind.
abbrev pub be_bytes : ℕ → ℕ → List ℕ
be_bytes zero v = []
be_bytes (suc k) v = be_bytes k (v / 256) ++ (v % 256 ∷ [])

abbrev pub be_value_from : ℕ → List ℕ → ℕ
be_value_from acc [] = acc
be_value_from acc (b ∷ bs) = be_value_from (256 * acc + b) bs

abbrev pub be_value : List ℕ → ℕ
be_value bs = be_value_from 0 bs

-- The sign of memcmp on strings of the same length.
abbrev pub memcmp : List ℕ → List ℕ → Ordering
memcmp [] ys = Ordering.eq
memcmp (x ∷ xs) [] = Ordering.eq
memcmp (x ∷ xs) (y ∷ ys) = elim (compare x y) [
  | Ordering.lt ↦ Ordering.lt
  | Ordering.eq ↦ memcmp xs ys
  | Ordering.gt ↦ Ordering.gt
]

-- `memcpy(xs + i, vs, …)`, one byte after the other.
abbrev pub set_all : List ℕ → ℕ → List ℕ → List ℕ
set_all xs i [] = xs
set_all xs i (v ∷ vs) = set (set_all xs (suc i) vs) i v

pub length-set_all : (xs : List ℕ) (i : ℕ) (vs : List ℕ) → length (set_all xs i vs) ≡ length xs
length-set_all xs i [] = refl
length-set_all xs i (v ∷ vs) = length-set (set_all xs (suc i) vs) i v ∙ length-set_all xs (suc i) vs

pub length-le_bytes : (k v : ℕ) → length (le_bytes k v) ≡ k
length-le_bytes zero v = refl
length-le_bytes (suc k) v = ap suc (length-le_bytes k (v / 256))

pub le_bytes-IsByte : (k v : ℕ) → All IsByte (le_bytes k v)
le_bytes-IsByte zero v = tt
le_bytes-IsByte (suc k) v = (omega arith, le_bytes-IsByte k (v / 256))

-- What is written and read back is the number, cut to its width.
pub le_value-le_bytes : (k v : ℕ) → v < 256 ^ k → le_value (le_bytes k v) ≡ v
le_value-le_bytes zero v h = omega arith
le_value-le_bytes (suc k) v h =
    omega (arith, pow-suc 256 k, le_value-le_bytes k (v / 256) (omega (arith, pow-suc 256 k)))

-- A store and the windows on it: it shows through a suffix and through a prefix, what is written
-- is read back, and the bytes outside stay.
pub drop-set_all :
    (n : ℕ) (xs : List ℕ) (i : ℕ) (vs : List ℕ)
    → drop n (set_all xs (n + i) vs) ≡ set_all (drop n xs) i vs
drop-set_all n xs i [] = refl
drop-set_all n xs i (v ∷ vs) =
    drop-set n (set_all xs (suc (n + i)) vs) i v
    ∙ ap (λ r. set r i v)
        (ap (λ k. drop n (set_all xs k vs)) {x = suc (n + i)} {y = n + suc i} (omega arith)
          ∙ drop-set_all n xs (suc i) vs)

pub take-set_all :
    (n : ℕ) (xs : List ℕ) (i : ℕ) (vs : List ℕ)
    → take n (set_all xs i vs) ≡ set_all (take n xs) i vs
take-set_all n xs i [] = refl
take-set_all n xs i (v ∷ vs) =
    take-set n (set_all xs (suc i) vs) i v ∙ ap (λ r. set r i v) (take-set_all n xs (suc i) vs)

pub take-drop-set_all :
    (xs : List ℕ) (i : ℕ) (vs : List ℕ)
    → i + length vs ≤ length xs
    → take (length vs) (drop i (set_all xs i vs)) ≡ vs
take-drop-set_all xs i [] h = refl
take-drop-set_all xs i (v ∷ vs) h =
    rw (drop-set_self (set_all xs (suc i) vs) i v (omega (arith, length-set_all xs (suc i) vs)))
      (ap (λ r. v ∷ r) (take-drop-set_all xs (suc i) vs (omega arith)))

pub get_elem?-set_all :
    (xs : List ℕ) (i : ℕ) (vs : List ℕ) (j : ℕ)
    → (j < i) ⊎ (i + length vs ≤ j)
    → get_elem? (set_all xs i vs) j ≡ get_elem? xs j
get_elem?-set_all xs i [] j h = refl
get_elem?-set_all xs i (v ∷ vs) j h =
    get_elem?-set_ne (set_all xs (suc i) vs) i j v (omega arith)
    ∙ get_elem?-set_all xs (suc i) vs j (omega arith)
