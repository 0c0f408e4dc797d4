-- ===== src/CircularBuffer/Contents.antt =====
-- main/owl/circular_buffer.c: the elements of the buffer, the oldest first.
use esp_owl.Base.{
  Bool-cases, List, [], ap, ap₂, arith, drop, false, inl, inr, length, put_at, refl, suc, sym, true,
  ℕ, ◌++◌, ◌<◌, ◌==◌, ◌↔◌, ◌∙◌, ◌∷◌, ◌≡◌, ◌≤◌,
}
use esp_owl.Base.Segments.{
  around, around-lt, length-segment, next_lem, segment, segment-push, segment-push_over,
}
use mathlib.Core.Bool.{true≢false}
use esp_owl.CircularBuffer.{
  CircularBuf, advance_pointer, circular_buf_empty, circular_buf_put, circular_buf_size,
  retreat_pointer,
}

-- The indices are in bounds, and a full buffer has its head at its tail.
pub record IsValid {A : Type 0} (c : CircularBuf A) : Type 0 where
  pub head_bound : c.head < c.max
  pub tail_bound : c.tail < c.max
  pub at_tail : c.full ≡ true → c.head ≡ c.tail

-- The elements, the oldest first.
unfoldable pub contents : {A : Type 0} → CircularBuf A → List A
contents c = segment c.buffer c.max c.tail (circular_buf_size c)

abbrev elements : {A : Type 0} → CircularBuf A → ℕ → List A
elements c n = segment c.buffer c.max c.tail n

module _ {A : Type 0} {c : CircularBuf A} (ok : IsValid c) where
  pub size_bound : circular_buf_size c ≤ c.max
  unfolding circular_buf_size
  size_bound = ground (arith, ok.head_bound, ok.tail_bound, ok.at_tail)

  pub head_lem : c.head ≡ around c.max c.tail (circular_buf_size c)
  unfolding circular_buf_size
  head_lem = ground (arith, ok.head_bound, ok.tail_bound, ok.at_tail)

  pub size_not_full : c.full ≡ false → circular_buf_size c < c.max
  unfolding circular_buf_size
  size_not_full h = ground (arith, h, ok.head_bound, ok.tail_bound)

  pub size_full : c.full ≡ true → circular_buf_size c ≡ c.max
  unfolding circular_buf_size
  size_full h = ground (arith, h)

  pub size-eq-zero_iff : (circular_buf_empty c ≡ true) ↔ (circular_buf_size c ≡ 0)
  unfolding circular_buf_size circular_buf_empty
  size-eq-zero_iff = ground (arith, ok.head_bound, ok.tail_bound, ok.at_tail)

module _ {A : Type 0} {c : CircularBuf A} (ok : IsValid c) (x : A) where
  pub put_room :
      c.full ≡ false
      → circular_buf_put c x ≡ record c {
        buffer = put_at c.buffer c.head x;
        head = around c.max c.head 1;
        full = around c.max c.head 1 == c.tail;
      }
  unfolding circular_buf_put advance_pointer
  put_room h = rw (circular_buf_put, advance_pointer, h, next_lem c.max c.head ok.head_bound) refl

  pub put_over :
      c.full ≡ true
      → circular_buf_put c x ≡ record c {
        buffer = put_at c.buffer c.head x;
        head = around c.max c.head 1;
        tail = around c.max c.tail 1;
        full = around c.max c.head 1 == around c.max c.tail 1;
      }
  unfolding circular_buf_put advance_pointer
  put_over h =
      rw
        (
          circular_buf_put,
          advance_pointer,
          h,
          next_lem c.max c.head ok.head_bound,
          next_lem c.max c.tail ok.tail_bound,
        )
        refl

  pub put-IsValid : IsValid (circular_buf_put c x)
  put-IsValid = elim (Bool-cases c.full) [
    | inr room ↦ rw (put_room room) (record {
      head_bound = around-lt c.max c.head 1 ok.head_bound (omega (arith, ok.head_bound));
      tail_bound = ok.tail_bound;
      at_tail = λ h. ground (arith, h);
    })
    | inl over ↦ rw (put_over over) (record {
      head_bound = around-lt c.max c.head 1 ok.head_bound (omega (arith, ok.head_bound));
      tail_bound = around-lt c.max c.tail 1 ok.tail_bound (omega (arith, ok.tail_bound));
      at_tail = λ h. ground (arith, h);
    })
  ]

  pub size-put_room :
      c.full ≡ false → circular_buf_size (circular_buf_put c x) ≡ suc (circular_buf_size c)
  unfolding circular_buf_size
  size-put_room room = rw (put_room room) (ground (arith, room, ok.head_bound, ok.tail_bound))

  pub size-put_over : c.full ≡ true → circular_buf_size (circular_buf_put c x) ≡ c.max
  unfolding circular_buf_size
  size-put_over over = rw (put_over over) (ground (arith, over, ok.at_tail over))

  pub contents-put_room : c.full ≡ false → contents (circular_buf_put c x) ≡ contents c ++ (x ∷ [])
  unfolding contents
  contents-put_room room =
      ap₂ elements (put_room room) (size-put_room room)
      ∙ segment-push c.buffer c.max c.tail (circular_buf_size c) c.head x ok.tail_bound
          (size_not_full ok room) (head_lem ok)

  pub contents-put_over :
      c.full ≡ true → contents (circular_buf_put c x) ≡ drop 1 (contents c) ++ (x ∷ [])
  unfolding contents
  contents-put_over over =
      ap₂ elements (put_over over) (size-put_over over)
      ∙ segment-push_over c.buffer c.max c.tail c.head x ok.tail_bound (ok.at_tail over)
      ∙ ap (λ (n : ℕ). drop 1 (segment c.buffer c.max c.tail n) ++ (x ∷ []))
          (sym (size_full ok over))

module _ {A : Type 0} {c : CircularBuf A} (ok : IsValid c) where
  pub length-contents : length (contents c) ≡ circular_buf_size c
  unfolding contents
  length-contents = length-segment c.buffer c.max c.tail (circular_buf_size c)

  pub retreat_lem : retreat_pointer c ≡ record c { full = false; tail = around c.max c.tail 1 }
  unfolding retreat_pointer
  retreat_lem = rw (retreat_pointer, next_lem c.max c.tail ok.tail_bound) refl

  pub size-retreat :
      circular_buf_empty c ≡ false
      → circular_buf_size c ≡ suc (circular_buf_size (retreat_pointer c))
  unfolding circular_buf_empty circular_buf_size
  size-retreat left =
      rw retreat_lem (ground (arith, left, ok.head_bound, ok.tail_bound, ok.at_tail))

  pub retreat-IsValid : IsValid (retreat_pointer c)
  retreat-IsValid = rw retreat_lem (record {
    head_bound = ok.head_bound;
    tail_bound = around-lt c.max c.tail 1 ok.tail_bound (omega (arith, ok.tail_bound));
    at_tail = λ h. absurd (true≢false (sym h));
  })

  pub contents-retreat :
      circular_buf_empty c ≡ false → contents c ≡ c.buffer c.tail ∷ contents (retreat_pointer c)
  unfolding contents
  contents-retreat left =
      ap (elements c) (size-retreat left)
      ∙ ap
          (λ (d : CircularBuf A).
            c.buffer c.tail ∷ elements d (circular_buf_size (retreat_pointer c)))
          (sym retreat_lem)

  pub contents_empty : circular_buf_empty c ≡ true → contents c ≡ []
  unfolding contents
  contents_empty h = ap (elements c) ((size-eq-zero_iff ok).0 h)
