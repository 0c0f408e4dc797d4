-- ===== src/RingBuffer/Index.antt =====
-- main/utils/ringbuffer.c: setting the value of an age.
use esp_owl.Base.{
  Bool-cases, ap, arith, false, if◌then◌else◌, inl, inr, leb, ltb, put_at, refl, set, suc, true,
  zero, ℕ, ◌%◌, ◌+◌, ◌-◌, ◌<◌, ◌==◌, ◌∙◌, ◌∷◌, ◌≡◌, ◌≤◌,
}
use esp_owl.Base.Segments.{around, around-lt, segment, segment-put_at_within, segment-unshift}
use esp_owl.Base.Int.{negsuc, pos, ℤ}
use esp_owl.RingBuffer.{RingBuffer, lower_index, raise_index, ring_index, set_index}
use esp_owl.RingBuffer.History.{IsValid, history}

lower_lem : (fuel n : ℕ) → n ≤ fuel → lower_index fuel n ≡ n % 20
unfolding lower_index
lower_lem zero n h = ground (arith, h)
lower_lem (suc fuel) n h = elim (Bool-cases (leb 20 n)) [
  | inl high ↦
      rw (lower_index, high)
        (lower_lem fuel (n - 20) (ground (arith, h, high)) ∙ ground (arith, high))
  | inr low ↦ rw (lower_index, low) (ground (arith, low))
]

raise_lem : (fuel k : ℕ) → k < fuel → raise_index fuel k ≡ 19 - k % 20
unfolding raise_index
raise_lem zero k h = absurd (omega (arith, h))
raise_lem (suc fuel) k h = elim (Bool-cases (ltb k 20)) [
  | inl low ↦ rw (raise_index, low) (ground (arith, low))
  | inr high ↦
      rw (raise_index, high)
        (raise_lem fuel (k - 20) (ground (arith, h, high)) ∙ ground (arith, high))
]

ring_index_bound : (i : ℤ) → ring_index i < 20
unfolding ring_index
ring_index_bound (pos n) = omega (arith, lower_lem n n (omega arith))
ring_index_bound (negsuc k) = omega (arith, raise_lem (suc k) k (omega arith))

-- The index is taken modulo the size of the array.
pub ring_index_lem :
    (n : ℕ) → (ring_index (pos n) ≡ n % 20) × ((ring_index (negsuc n) + n + 1) % 20 ≡ 0)
unfolding ring_index
ring_index_lem n = (lower_lem n n (omega arith), omega (arith, raise_lem (suc n) n (omega arith)))

module _ {A : Type 0} {b : RingBuffer A} (ok : IsValid b) (i : ℤ) (x : A) where
  set_inside :
      ltb (ring_index i) b.size ≡ true
      → set_index b i x
        ≡ record b { slots = put_at b.slots (around 20 b.start (b.size - 1 - ring_index i)) x }
  unfolding set_index
  set_inside inside =
      let tested : leb b.size (ring_index i) ≡ false = ground (arith, inside) in
      let place : (if ltb b.end (ring_index i + 1)
            then b.end + 20 - (ring_index i + 1)
            else b.end - (ring_index i + 1))
          ≡ around 20 b.start (b.size - 1 - ring_index i) =
        ground (arith, inside, ok.start_bound, ok.size_bound, ok.end_place) in
      rw (set_index, tested, place) refl

  set_outside :
      ltb (ring_index i) b.size ≡ false
      → set_index b i x ≡ record b {
        start = around 20 b.start 19;
        size = b.size + 1;
        slots = put_at b.slots (around 20 b.start 19) x;
      }
  unfolding set_index
  set_outside outside =
      let tested : leb b.size (ring_index i) ≡ true = ground (arith, outside) in
      let place : (if b.start == 0 then 19 else b.start - 1) ≡ around 20 b.start 19 =
        ground (arith, ok.start_bound) in
      rw (set_index, tested, place) refl

-- The remainder of an index, which is never negative.
abbrev pub age : ℤ → ℕ
age (pos n) = n % 20
age (negsuc k) = 19 - k % 20

ring_index-age : (i : ℤ) → ring_index i ≡ age i
unfolding ring_index
ring_index-age (pos n) = lower_lem n n (omega arith)
ring_index-age (negsuc k) = raise_lem (suc k) k (omega arith)

set_ring_index :
    {A : Type 0} (b : RingBuffer A) (i : ℤ) (x : A)
    → IsValid b
    → IsValid (set_index b i x)
      × (history (set_index b i x) ≡ (
          if ltb (ring_index i) b.size
          then set (history b) (b.size - 1 - ring_index i) x
          else x ∷ history b))
unfolding history
set_ring_index b i x ok = elim (Bool-cases (ltb (ring_index i) b.size)) [
  | inl inside ↦
      rw (inside, set_inside ok i x inside)
        (
          record {
            start_bound = ok.start_bound;
            size_bound = ok.size_bound;
            end_place = ok.end_place;
          },
          segment-put_at_within b.slots 20 b.start b.size (b.size - 1 - ring_index i) x
              ok.start_bound ok.size_bound (ground (arith, inside)),
        )
  | inr outside ↦
      rw (outside, set_outside ok i x outside)
        (
          record {
            start_bound = around-lt 20 b.start 19 ok.start_bound (omega arith);
            size_bound = ground (arith, outside, ring_index_bound i);
            end_place = ground (arith, outside, ring_index_bound i, ok.end_place, ok.start_bound);
          },
          ap (segment (put_at b.slots (around 20 b.start 19) x) 20 (around 20 b.start 19))
                {y = suc b.size} (omega arith)
              ∙ segment-unshift b.slots 20 b.start b.size x ok.start_bound
                  (ground (arith, outside, ring_index_bound i)),
        )
]

-- Setting the value of an age, taken modulo 20, which gives 19 for -1, replaces it, and an age that
-- no value has makes the value the oldest.
pub history-set_index :
    {A : Type 0} (b : RingBuffer A) (i : ℤ) (x : A)
    → IsValid b
    → IsValid (set_index b i x)
      × (history (set_index b i x)
          ≡ (if ltb (age i) b.size then set (history b) (b.size - 1 - age i) x else x ∷ history b))
history-set_index b i x ok =
    let (valid, values) = set_ring_index b i x ok in
    (
      valid,
      values
          ∙ ap
              (λ (k : ℕ).
                if ltb k b.size then set (history b) (b.size - 1 - k) x else x ∷ history b)
              (ring_index-age i),
    )
