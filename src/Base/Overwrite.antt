-- ===== src/Base/Overwrite.antt =====
-- Byte strings that are overwritten, as a whole in two parts, or in the middle.
use Prim.Native.Nat.{ℕ, zero, suc, ◌+◌, ◌<◌, ◌≤◌}
use mathlib.Core.Path.{◌≡◌, refl, sym, ap, ap₂, ◌∙◌}
use mathlib.Core.List.{List, [], ◌∷◌, ◌++◌}
use native.Mathlib.Omega.{arith}
use esp_owl.Base.Lists.{length, set, take, drop, take_all, length-take, length-drop}
use esp_owl.Base.Bytes.{set_all, length-set_all, take-set_all, drop-set_all, take-drop-set_all}

pub set_past : (xs : List ℕ) (i v : ℕ) → length xs ≤ i → set xs i v ≡ xs
set_past [] i v h = refl
set_past (x ∷ xs) zero v h = absurd (omega (arith, h))
set_past (x ∷ xs) (suc i) v h = ap (λ (r : List ℕ). x ∷ r) (set_past xs i v (omega (arith, h)))

set_all_past : (xs : List ℕ) (i : ℕ) (vs : List ℕ) → length xs ≤ i → set_all xs i vs ≡ xs
set_all_past xs i [] h = refl
set_all_past xs i (v ∷ vs) h =
    ap (λ (r : List ℕ). set r i v) (set_all_past xs (suc i) vs (omega (arith, h)))
    ∙ set_past xs i v h

pub take-drop_append : (n : ℕ) (xs : List ℕ) → take n xs ++ drop n xs ≡ xs
take-drop_append zero xs = refl
take-drop_append (suc n) [] = refl
take-drop_append (suc n) (x ∷ xs) = ap (λ (r : List ℕ). x ∷ r) (take-drop_append n xs)

-- A string that is overwritten as a whole.
set_all_whole : (xs vs : List ℕ) → length xs ≡ length vs → set_all xs 0 vs ≡ vs
set_all_whole xs vs e =
    sym (take_all (set_all xs 0 vs))
    ∙ ap (λ (n : ℕ). take n (set_all xs 0 vs)) (length-set_all xs 0 vs ∙ e)
    ∙ take-drop-set_all xs 0 vs (omega (arith, e))

pub set_all_pair :
    (xs head body : List ℕ)
    → length xs ≡ length head + length body
    → set_all (set_all xs 0 head) (length head) body ≡ head ++ body
set_all_pair xs head body e =
    let n = length head in
    let ys = set_all xs 0 head in
    let front : take n (set_all ys n body) ≡ head =
      take-set_all n ys n body
      ∙ set_all_past (take n ys) n body (omega (arith, length-take n ys))
      ∙ take-drop-set_all xs 0 head (omega (arith, e)) in
    let back : drop n (set_all ys n body) ≡ body =
      ap (λ (k : ℕ). drop n (set_all ys k body)) {y = n + 0} (omega arith)
      ∙ drop-set_all n ys 0 body
      ∙ set_all_whole (drop n ys) body
          (omega (arith, length-drop n ys, length-set_all xs 0 head, e)) in
    sym (take-drop_append n (set_all ys n body)) ∙ ap₂ (λ (a b : List ℕ). a ++ b) front back

-- What stands in front of a store, and behind it, stays.
take-set_front : (n i v : ℕ) (xs : List ℕ) → n ≤ i → take n (set xs i v) ≡ take n xs
take-set_front zero i v xs h = refl
take-set_front (suc n) i v [] h = refl
take-set_front (suc n) zero v (x ∷ xs) h = absurd (omega (arith, h))
take-set_front (suc n) (suc i) v (x ∷ xs) h =
    ap (λ (r : List ℕ). x ∷ r) (take-set_front n i v xs (omega (arith, h)))

take-set_all_at :
    (xs : List ℕ) (n i : ℕ) (vs : List ℕ) → n ≤ i → take n (set_all xs i vs) ≡ take n xs
take-set_all_at xs n i [] h = refl
take-set_all_at xs n i (v ∷ vs) h =
    take-set_front n i v (set_all xs (suc i) vs) h
    ∙ take-set_all_at xs n (suc i) vs (omega (arith, h))

pub take-set_all_front : (xs : List ℕ) (i : ℕ) (vs : List ℕ) → take i (set_all xs i vs) ≡ take i xs
take-set_all_front xs i vs = take-set_all_at xs i i vs (omega arith)

drop-set_behind : (n i v : ℕ) (xs : List ℕ) → i < n → drop n (set xs i v) ≡ drop n xs
drop-set_behind zero i v xs h = absurd (omega (arith, h))
drop-set_behind (suc n) i v [] h = refl
drop-set_behind (suc n) zero v (x ∷ xs) h = refl
drop-set_behind (suc n) (suc i) v (x ∷ xs) h = drop-set_behind n i v xs (omega (arith, h))

drop-set_all_at :
    (xs : List ℕ) (n i : ℕ) (vs : List ℕ) → i + length vs ≤ n → drop n (set_all xs i vs) ≡ drop n xs
drop-set_all_at xs n i [] h = refl
drop-set_all_at xs n i (v ∷ vs) h =
    drop-set_behind n i v (set_all xs (suc i) vs) (omega (arith, h))
    ∙ drop-set_all_at xs n (suc i) vs (omega (arith, h))

pub drop-set_all_behind :
    (xs : List ℕ) (i : ℕ) (vs : List ℕ)
    → drop (i + length vs) (set_all xs i vs) ≡ drop (i + length vs) xs
drop-set_all_behind xs i vs = drop-set_all_at xs (i + length vs) i vs (omega arith)
