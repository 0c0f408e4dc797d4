-- ===== src/RingBuffer.antt =====
-- main/utils/ringbuffer.c: the history of the commands.
pub mod History
pub mod Index
pub mod Tests
use esp_owl.Base.{
  Option, false, if◌then◌else◌, leb, ltb, none, put_at, some, suc, true, zero, ℕ, ◌%◌, ◌+◌, ◌-◌,
  ◌==◌,
}
use esp_owl.Base.Int.{negsuc, pos, ℤ}

abbrev pub buffer_size : ℕ
buffer_size = 20

-- `RingBuffer`. The array is a function of the index; no index from `BUFFER_SIZE` on is used.
pub record RingBuffer (A : Type 0) : Type 0 where
  pub slots : ℕ → A
  pub start : ℕ
  pub end : ℕ
  pub size : ℕ

module _ {A : Type 0} where
  -- `garbage` is the memory before.
  unfoldable pub init_ring_buffer : RingBuffer A → RingBuffer A
  init_ring_buffer garbage = record garbage { start = 0; end = 0; size = 0 }

  unfoldable pub put_ring_buffer : RingBuffer A → A → RingBuffer A
  put_ring_buffer buffer value =
      let start =
        if ltb buffer.size buffer_size then buffer.start else (buffer.start + 1) % buffer_size in
      let size = if ltb buffer.size buffer_size then buffer.size + 1 else buffer.size in
      record {
        slots = put_at buffer.slots buffer.end value;
        start = start;
        end = (buffer.end + 1) % buffer_size;
        size = size;
      }

  -- `none` is the empty string that the source returns when the index is out of bounds.
  unfoldable pub get_ring_buffer_index : RingBuffer A → ℤ → Option A
  get_ring_buffer_index buffer (pos index) =
      if leb buffer.size index
      then none
      else some (buffer.slots ((buffer.start + (buffer.size - index - 1)) % buffer_size))
  get_ring_buffer_index buffer (negsuc k) =
      if ltb buffer.size (k + 1)
      then none
      else some (buffer.slots ((buffer.start + (buffer.size + k)) % buffer_size))

-- The loops that bring an index into the range of the array, on fuel: `-(k + 1)` is raised by
-- `BUFFER_SIZE`, and then `n` lowered by it, until it is in the range.
unfoldable pub lower_index : ℕ → ℕ → ℕ
lower_index zero n = n
lower_index (suc fuel) n = elim (leb buffer_size n) [
  | true ↦ lower_index fuel (n - buffer_size)
  | false ↦ n
]

unfoldable pub raise_index : ℕ → ℕ → ℕ
raise_index zero k = 0
raise_index (suc fuel) k = elim (ltb k buffer_size) [
  | true ↦ buffer_size - (k + 1)
  | false ↦ raise_index fuel (k - buffer_size)
]

unfoldable pub ring_index : ℤ → ℕ
ring_index (pos n) = lower_index n n
ring_index (negsuc k) = raise_index (suc k) k

unfoldable pub set_index : {A : Type 0} → RingBuffer A → ℤ → A → RingBuffer A
set_index buffer i value =
    let index = ring_index i in
    let start = if buffer.start == 0 then buffer_size - 1 else buffer.start - 1 in
    let place =
      if ltb buffer.end (index + 1)
      then buffer.end + buffer_size - (index + 1)
      else buffer.end - (index + 1) in
    if leb buffer.size index
    then record buffer {
      start = start;
      size = buffer.size + 1;
      slots = put_at buffer.slots start value;
    }
    else record buffer { slots = put_at buffer.slots place value }
