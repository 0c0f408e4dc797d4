-- ===== src/RingBuffer/History.antt =====
-- main/utils/ringbuffer.c: the buffer as the list of its elements, the oldest first.
use esp_owl.Base.{
  Bool, Bool-cases, List, [], ap, arith, false, get_elem?, if◌then◌else◌, inl, inr, leb, ltb,
  ltb→lt, none, put_at, refl, some, suc, sym, true, ℕ, ◌%◌, ◌+◌, ◌-◌, ◌<◌, ◌∙◌, ◌≡◌, ◌≤◌,
}
use esp_owl.Base.Segments.{
  around, around-lt, get_elem?-segment, length-segment, next_lem, push, segment, segment-push,
  segment-push_full,
}
use esp_owl.Base.Int.{negsuc, pos}
use esp_owl.RingBuffer.{
  RingBuffer, buffer_size, get_ring_buffer_index, init_ring_buffer, put_ring_buffer,
}

pub record IsValid {A : Type 0} (b : RingBuffer A) : Type 0 where
  pub start_bound : b.start < 20
  pub size_bound : b.size ≤ 20
  pub end_place : b.end ≡ around 20 b.start b.size

unfoldable pub history : {A : Type 0} → RingBuffer A → List A
history b = segment b.slots buffer_size b.start b.size

-- A new buffer is empty.
pub history-init :
    {A : Type 0} (garbage : RingBuffer A)
    → IsValid (init_ring_buffer garbage) × (history (init_ring_buffer garbage) ≡ [])
unfolding init_ring_buffer history
history-init garbage =
    (record { start_bound = omega arith; size_bound = omega arith; end_place = refl }, refl)

module _ {A : Type 0} {b : RingBuffer A} (ok : IsValid b) (x : A) where
  put_room :
      ltb b.size 20 ≡ true
      → put_ring_buffer b x ≡ record {
        slots = put_at b.slots b.end x;
        start = b.start;
        end = (b.end + 1) % 20;
        size = b.size + 1;
      }
  unfolding put_ring_buffer
  put_room room = rw (put_ring_buffer, room) refl

  put_over :
      ltb b.size 20 ≡ false
      → put_ring_buffer b x ≡ record {
        slots = put_at b.slots b.end x;
        start = around 20 b.start 1;
        end = (b.end + 1) % 20;
        size = b.size;
      }
  unfolding put_ring_buffer
  put_over over = rw (put_ring_buffer, over, next_lem 20 b.start ok.start_bound) refl

  added :
      ltb b.size 20 ≡ true
      → segment (put_at b.slots b.end x) 20 b.start (b.size + 1) ≡ push 20 (history b) x
  unfolding history
  added room =
      rw (length-segment b.slots 20 b.start b.size, room)
        (ap (segment (put_at b.slots b.end x) 20 b.start) {y = suc b.size} (omega arith)
          ∙ segment-push b.slots 20 b.start b.size b.end x ok.start_bound (ltb→lt b.size 20 room)
              ok.end_place)

  replaced :
      ltb b.size 20 ≡ false
      → b.size ≡ 20
      → segment (put_at b.slots b.end x) 20 (around 20 b.start 1) b.size ≡ push 20 (history b) x
  unfolding history
  replaced over full =
      let at_start : b.end ≡ b.start = ground (arith, full, ok.end_place, ok.start_bound) in
      rw (length-segment b.slots 20 b.start b.size, over)
        (segment-push_full b.slots 20 b.start b.size b.end x ok.start_bound full at_start)

-- Putting a value adds it as the newest, and of 20 values the oldest is lost.
pub history-put :
    {A : Type 0} (b : RingBuffer A) (x : A)
    → IsValid b
    → IsValid (put_ring_buffer b x) × (history (put_ring_buffer b x) ≡ push 20 (history b) x)
unfolding history
history-put b x ok = elim (Bool-cases (ltb b.size 20)) [
  | inl room ↦ rw (put_room ok x room) (
    record {
      start_bound = ok.start_bound;
      size_bound = ground (arith, room);
      end_place = ground (arith, room, ok.end_place, ok.start_bound);
    },
    added ok x room,
  )
  | inr over ↦
      let full : b.size ≡ 20 = ground (arith, over, ok.size_bound) in
      rw (put_over ok x over) (
        record {
          start_bound = around-lt 20 b.start 1 ok.start_bound (omega arith);
          size_bound = ok.size_bound;
          end_place = ground (arith, full, ok.end_place, ok.start_bound);
        },
        replaced ok x over full,
      )
]

-- A value is read by its age, the newest by 0; nothing is as old as the number of values.
pub get-history :
    {A : Type 0} (b : RingBuffer A) (index : ℕ)
    → IsValid b
    → get_ring_buffer_index b (pos index)
      ≡ (if ltb index b.size then get_elem? (history b) (b.size - 1 - index) else none)
unfolding get_ring_buffer_index history
get-history b index ok = elim (Bool-cases (ltb index b.size)) [
  | inl inside ↦
      let k = b.size - 1 - index in
      let lt = ltb→lt index b.size inside in
      let tested : leb b.size index ≡ false = ground (arith, inside) in
      let place : (b.start + (b.size - index - 1)) % 20 ≡ around 20 b.start k =
        ground (arith, lt, ok.start_bound, ok.size_bound) in
      rw (tested, inside)
        (ap (λ (p : ℕ). some (b.slots p)) place
          ∙ sym (
              get_elem?-segment b.slots 20 b.start b.size k ok.start_bound ok.size_bound
                (omega (arith, lt))))
  | inr outside ↦
      let tested : leb b.size index ≡ true = ground (arith, outside) in rw (tested, outside) refl
]

-- When the buffer is full, a negative index counts from the oldest value.
pub get-history_negative :
    {A : Type 0} (b : RingBuffer A) (k : ℕ)
    → IsValid b
    → b.size ≡ 20
    → k < 20
    → get_ring_buffer_index b (negsuc k) ≡ get_elem? (history b) k
unfolding get_ring_buffer_index history
get-history_negative b k ok full h =
    let tested : ltb b.size (k + 1) ≡ false = ground (arith, full, h) in
    let place : (b.start + (b.size + k)) % 20 ≡ around 20 b.start k =
      ground (arith, h, full, ok.start_bound) in
    ap (λ (t : Bool). if t then none else some (b.slots ((b.start + (b.size + k)) % 20))) tested
    ∙ ap (λ (p : ℕ). some (b.slots p)) place
    ∙ sym (
        get_elem?-segment b.slots 20 b.start b.size k ok.start_bound ok.size_bound
          (omega (arith, full, h)))
