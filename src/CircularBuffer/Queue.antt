-- ===== src/CircularBuffer/Queue.antt =====
-- main/owl/circular_buffer.c as a queue of bounded length.
use esp_owl.Base.{
  Bool, Bool-cases, List, [], ap, arith, false, if◌then◌else◌, inl, inr, length, le→ltb_false,
  lt→ltb, none, not, refl, some, sym, true, ℕ, ◌++◌, ◌<◌, ◌↔◌, ◌∙◌, ◌∷◌, ◌≡◌, ◌≤◌, ◌⊎◌,
}
use esp_owl.Base.Segments.{push}
use esp_owl.Base.Int.{negsuc, pos}
use esp_owl.CircularBuffer.{
  CircularBuf, advance_pointer, circular_buf_capacity, circular_buf_empty, circular_buf_full,
  circular_buf_get, circular_buf_init, circular_buf_put, circular_buf_put2, circular_buf_reset,
  circular_buf_size, retreat_pointer,
}
use esp_owl.CircularBuffer.Contents.{
  IsValid, contents, contents-put_over, contents-put_room, contents-retreat, contents_empty,
  length-contents, put-IsValid, retreat-IsValid, size-eq-zero_iff, size_bound, size_full,
  size_not_full,
}

module _ {A : Type 0} (c : CircularBuf A) where
  put2_room : (x : A) → c.full ≡ false → circular_buf_put2 c x ≡ (pos 0, circular_buf_put c x)
  unfolding circular_buf_put2 circular_buf_full circular_buf_put
  put2_room x room =
      ap (λ (b : Bool). if not b then (pos 0, circular_buf_put c x) else (negsuc 0, c)) room

  put2_over : (x : A) → c.full ≡ true → circular_buf_put2 c x ≡ (negsuc 0, c)
  unfolding circular_buf_put2 circular_buf_full circular_buf_put
  put2_over x over =
      ap (λ (b : Bool). if not b then (pos 0, circular_buf_put c x) else (negsuc 0, c)) over

  get_empty :
      (peek : Bool) → circular_buf_empty c ≡ true → circular_buf_get c peek ≡ (negsuc 0, none, c)
  unfolding circular_buf_get
  get_empty peek empty = rw (circular_buf_get, empty) refl

  get_peek :
      circular_buf_empty c ≡ false → circular_buf_get c true ≡ (pos 0, some (c.buffer c.tail), c)
  unfolding circular_buf_get
  get_peek left = rw (circular_buf_get, left) refl

  get_pop :
      circular_buf_empty c ≡ false
      → circular_buf_get c false ≡ (pos 0, some (c.buffer c.tail), retreat_pointer c)
  unfolding circular_buf_get
  get_pop left = rw (circular_buf_get, left) refl

  put_max : (x : A) → (circular_buf_put c x).max ≡ c.max
  unfolding circular_buf_put advance_pointer
  put_max x = refl

  retreat_max : (retreat_pointer c).max ≡ c.max
  unfolding retreat_pointer
  retreat_max = refl

-- Putting an element adds it to the end of the queue, and a full queue loses its oldest element.
pub contents-put :
    {A : Type 0} (c : CircularBuf A) (x : A)
    → IsValid c
    → let c' = circular_buf_put c x in
      IsValid c'
      × (contents c' ≡ push (circular_buf_capacity c) (contents c) x)
      × (circular_buf_capacity c' ≡ circular_buf_capacity c)
unfolding circular_buf_capacity
contents-put c x ok = elim (Bool-cases c.full) [
  | inr room ↦
      let short = lt→ltb (circular_buf_size c) c.max (size_not_full ok room) in
      (put-IsValid ok x, rw (length-contents ok, short) (contents-put_room ok x room), put_max c x)
  | inl over ↦
      let long = le→ltb_false (circular_buf_size c) c.max (omega (arith, size_full ok over)) in
      (put-IsValid ok x, rw (length-contents ok, long) (contents-put_over ok x over), put_max c x)
]

-- Putting with a test adds the element unless the queue is full, and then refuses and changes
-- nothing.
pub contents-put2 :
    {A : Type 0} (c : CircularBuf A) (x : A)
    → IsValid c
    → let (status, c') = circular_buf_put2 c x in
      IsValid c'
      × (circular_buf_capacity c' ≡ circular_buf_capacity c)
      × (((length (contents c) ≡ circular_buf_capacity c) × (status ≡ negsuc 0) × (c' ≡ c))
          ⊎ ((length (contents c) < circular_buf_capacity c)
              × (status ≡ pos 0)
              × (contents c' ≡ contents c ++ (x ∷ []))))
unfolding circular_buf_capacity
contents-put2 c x ok = elim (Bool-cases c.full) [
  | inr room ↦ rw (put2_room c x room) (
    put-IsValid ok x,
    put_max c x,
    inr (
      omega (arith, length-contents ok, size_not_full ok room),
      refl,
      contents-put_room ok x room,
    ),
  )
  | inl over ↦
      rw (put2_over c x over) (ok, refl, inl (length-contents ok ∙ size_full ok over, refl, refl))
]

-- Getting returns the oldest element and takes it away, or leaves it when peeking; an empty queue
-- has none, and is not changed.
pub contents-get :
    {A : Type 0} (c : CircularBuf A) (peek : Bool)
    → IsValid c
    → let (status, value, c') = circular_buf_get c peek in
      IsValid c'
      × (circular_buf_capacity c' ≡ circular_buf_capacity c)
      × (((contents c ≡ []) × (status ≡ negsuc 0) × (value ≡ none) × (c' ≡ c))
          ⊎ ((x : A) × (rest : List A) × (contents c ≡ x ∷ rest)
              × (status ≡ pos 0)
              × (value ≡ some x)
              × (contents c' ≡ (if peek then contents c else rest))))
unfolding circular_buf_capacity
contents-get c peek ok = elim (Bool-cases (circular_buf_empty c)) [
  | inl empty ↦
      rw (get_empty c peek empty) (ok, refl, inl (contents_empty ok empty, refl, refl, refl))
  | inr left ↦
      let x = c.buffer c.tail in
      let rest = contents (retreat_pointer c) in
      let split = contents-retreat ok left in
      elim (Bool-cases peek) [
        | inl peeks ↦ rw (peeks, get_peek c left) (ok, refl, inr (x, rest, split, refl, refl, refl))
        | inr pops ↦
            rw (pops, get_pop c left)
              (retreat-IsValid ok, retreat_max c, inr (x, rest, split, refl, refl, refl))
      ]
]

-- A buffer that has just been made is empty, with the size that was asked for.
pub contents-init :
    {A : Type 0} (garbage : CircularBuf A) (size : ℕ)
    → 0 < size
    → let c = circular_buf_init garbage size in
      IsValid c × (contents c ≡ []) × (circular_buf_capacity c ≡ size)
unfolding circular_buf_init circular_buf_reset circular_buf_capacity contents circular_buf_size
contents-init garbage size h =
    (record { head_bound = h; tail_bound = h; at_tail = λ e. refl }, refl, refl)

-- The functions that count agree with the queue.
pub contents_counts :
    {A : Type 0} (c : CircularBuf A)
    → IsValid c
    → (circular_buf_size c ≡ length (contents c))
      × ((circular_buf_empty c ≡ true) ↔ (contents c ≡ []))
      × ((circular_buf_full c ≡ true) ↔ (length (contents c) ≡ circular_buf_capacity c))
      × (length (contents c) ≤ circular_buf_capacity c)
unfolding circular_buf_full circular_buf_capacity
contents_counts c ok = (
  sym (length-contents ok),
  (λ h. contents_empty ok h, λ h. (size-eq-zero_iff ok).1 (sym (length-contents ok) ∙ ap length h)),
  (
    λ h. length-contents ok ∙ size_full ok h,
    λ h. elim (Bool-cases c.full) [
      | inl over ↦ over
      | inr room ↦ absurd (omega (arith, h, length-contents ok, size_not_full ok room))
    ],
  ),
  omega (arith, length-contents ok, size_bound ok),
)
