-- ===== src/CircularBuffer/Run.antt =====
-- main/owl/circular_buffer.c: any sequence of calls against a queue that is a list.
use esp_owl.Base.{
  Bool, List, Option, [], ap, ap₂, arith, if◌then◌else◌, inl, inr, length, le→ltb_false, ltb,
  lt→ltb, none, refl, some, subst₂, ℕ, ◌++◌, ◌<◌, ◌∙◌, ◌∷◌, ◌≡◌,
}
use esp_owl.Base.Segments.{push}
use esp_owl.Base.Int.{negsuc, pos, ℤ}
use esp_owl.CircularBuffer.{
  CircularBuf, circular_buf_capacity, circular_buf_get, circular_buf_init, circular_buf_put,
  circular_buf_put2,
}
use esp_owl.CircularBuffer.Contents.{IsValid, contents}
use esp_owl.CircularBuffer.Queue.{contents-get, contents-init, contents-put, contents-put2}

-- A call of the buffer, and what it returns: the status, and an element.
pub data Call (A : Type 0) : Type 0 where
  put : A → Call A
  put2 : A → Call A
  get : Bool → Call A

abbrev pub Reply : Type 0 → Type 0
Reply A = ℤ × Option A

module _ {A : Type 0} where
  abbrev pub call_buffer : Call A → CircularBuf A → Reply A × CircularBuf A
  call_buffer (put x) c = ((pos 0, none), circular_buf_put c x)
  call_buffer (put2 x) c = let (status, c') = circular_buf_put2 c x in ((status, none), c')
  call_buffer (get peek) c =
      let (status, value, c') = circular_buf_get c peek in ((status, value), c')

  -- The queue, of at most `max` elements.
  abbrev pub call_queue : ℕ → Call A → List A → Reply A × List A
  call_queue max (put x) q = ((pos 0, none), push max q x)
  call_queue max (put2 x) q =
      if ltb (length q) max then ((pos 0, none), q ++ (x ∷ [])) else ((negsuc 0, none), q)
  call_queue max (get peek) [] = ((negsuc 0, none), [])
  call_queue max (get peek) (x ∷ q) = ((pos 0, some x), if peek then x ∷ q else q)

  abbrev pub run_buffer : List (Call A) → CircularBuf A → List (Reply A) × CircularBuf A
  run_buffer [] c = ([], c)
  run_buffer (k ∷ ks) c =
      let (reply, c') = call_buffer k c in
      let (replies, c'') = run_buffer ks c' in (reply ∷ replies, c'')

  abbrev pub run_queue : ℕ → List (Call A) → List A → List (Reply A) × List A
  run_queue max [] q = ([], q)
  run_queue max (k ∷ ks) q =
      let (reply, q') = call_queue max k q in
      let (replies, q'') = run_queue max ks q' in (reply ∷ replies, q'')

  -- A call keeps the buffer in good order, its size, and its agreement with the queue.
  abbrev Agrees : ℕ → Reply A × CircularBuf A → Reply A × List A → Type 0
  Agrees max r s =
      IsValid r.1 × (circular_buf_capacity r.1 ≡ max) × (r.0 ≡ s.0) × (contents r.1 ≡ s.1)

  call-Agrees :
      (k : Call A) (c : CircularBuf A)
      → IsValid c
      → Agrees
          (circular_buf_capacity c)
          (call_buffer k c)
          (call_queue (circular_buf_capacity c) k (contents c))
  call-Agrees (put x) c ok =
      let (valid, queue, size) = contents-put c x ok in (valid, size, refl, queue)
  call-Agrees (put2 x) c ok =
      let (valid, size, result) = contents-put2 c x ok in
      elim result [
        | inl (long, status, same) ↦
            let full =
              le→ltb_false (length (contents c)) (circular_buf_capacity c) (omega (arith, long)) in
            rw full (valid, size, ap (λ (s : ℤ). (s, none)) status, ap contents same)
        | inr (short, status, queue) ↦
            rw (lt→ltb (length (contents c)) (circular_buf_capacity c) short)
              (valid, size, ap (λ (s : ℤ). (s, none)) status, queue)
      ]
  call-Agrees (get peek) c ok =
      let (valid, size, result) = contents-get c peek ok in
      elim result [
        | inl (empty, status, value, same) ↦ rw empty (
          valid,
          size,
          ap₂ (λ (s : ℤ) (v : Option A). (s, v)) status value,
          ap contents same ∙ empty,
        )
        | inr (x, rest, split, status, value, queue) ↦ rw split (
          valid,
          size,
          ap₂ (λ (s : ℤ) (v : Option A). (s, v)) status value,
          queue ∙ ap (λ (q : List A). if peek then q else rest) split,
        )
      ]

  run_agrees :
      (ks : List (Call A)) (c : CircularBuf A) (max : ℕ) (q : List A)
      → IsValid c
      → circular_buf_capacity c ≡ max
      → contents c ≡ q
      → let r = run_buffer ks c in
        let s = run_queue max ks q in (r.0 ≡ s.0) × IsValid r.1 × (contents r.1 ≡ s.1)
  run_agrees [] c max q ok size same = (refl, ok, same)
  run_agrees (k ∷ ks) c max q ok size same =
      let (valid, size', reply, queue) =
        subst₂ (λ (m : ℕ) (p : List A). Agrees m (call_buffer k c) (call_queue m k p)) size same
          (call-Agrees k c ok) in
      let (replies, valid', queue') =
        run_agrees ks (call_buffer k c).1 max (call_queue max k q).1 valid size' queue in
      (ap₂ (λ (a : Reply A) (b : List (Reply A)). a ∷ b) reply replies, valid', queue')

-- A buffer that has just been made, of a size that is not 0, answers every sequence of calls as
-- the empty queue of that size does, and holds the elements of the queue at the end.
pub circular_buf-run :
    {A : Type 0} (garbage : CircularBuf A) (size : ℕ) (ks : List (Call A))
    → 0 < size
    → let (replies, c) = run_buffer ks (circular_buf_init garbage size) in
      let (expected, q) = run_queue size ks [] in
      (replies ≡ expected) × IsValid c × (contents c ≡ q)
circular_buf-run garbage size ks h =
    let (valid, empty, capacity) = contents-init garbage size h in
    run_agrees ks (circular_buf_init garbage size) size [] valid capacity empty
