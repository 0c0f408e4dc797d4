-- ===== src/CircularBuffer.antt =====
-- main/owl/circular_buffer.c: the queue of frames that wait for a multicast slot.
pub mod Contents
pub mod Queue
pub mod Run
pub mod Tests
use esp_owl.Base.{
  Bool, Option, false, if◌then◌else◌, leb, none, not, put_at, some, ℕ, ◌%◌, ◌&&◌, ◌+◌, ◌-◌, ◌==◌,
}
use esp_owl.Base.Int.{negsuc, pos, ℤ}

-- `struct circular_buf`. The array is a function of the index; no index from `max` on is used.
pub record CircularBuf (A : Type 0) : Type 0 where
  pub buffer : ℕ → A
  pub head : ℕ
  pub tail : ℕ
  pub max : ℕ
  pub full : Bool

module _ {A : Type 0} where
  unfoldable pub advance_pointer : CircularBuf A → CircularBuf A
  advance_pointer cbuf =
      let tail = if cbuf.full then (cbuf.tail + 1) % cbuf.max else cbuf.tail in
      let head = (cbuf.head + 1) % cbuf.max in
      record cbuf { tail = tail; head = head; full = head == tail }

  unfoldable pub retreat_pointer : CircularBuf A → CircularBuf A
  retreat_pointer cbuf = record cbuf { full = false; tail = (cbuf.tail + 1) % cbuf.max }

  unfoldable pub circular_buf_reset : CircularBuf A → CircularBuf A
  circular_buf_reset cbuf = record cbuf { head = 0; tail = 0; full = false }

  -- `garbage` is what `malloc` returns.
  unfoldable pub circular_buf_init : CircularBuf A → ℕ → CircularBuf A
  circular_buf_init garbage size = circular_buf_reset (record garbage { max = size })

  unfoldable pub circular_buf_size : CircularBuf A → ℕ
  circular_buf_size cbuf =
      if not cbuf.full
      then if leb cbuf.tail cbuf.head
        then cbuf.head - cbuf.tail
        else cbuf.max + cbuf.head - cbuf.tail
      else cbuf.max

  unfoldable pub circular_buf_capacity : CircularBuf A → ℕ
  circular_buf_capacity cbuf = cbuf.max

  unfoldable pub circular_buf_empty : CircularBuf A → Bool
  circular_buf_empty cbuf = not cbuf.full && cbuf.head == cbuf.tail

  unfoldable pub circular_buf_full : CircularBuf A → Bool
  circular_buf_full cbuf = cbuf.full

  unfoldable pub circular_buf_put : CircularBuf A → A → CircularBuf A
  circular_buf_put cbuf data_in =
      advance_pointer (record cbuf { buffer = put_at cbuf.buffer cbuf.head data_in })

  unfoldable pub circular_buf_put2 : CircularBuf A → A → ℤ × CircularBuf A
  circular_buf_put2 cbuf data_in =
      if not (circular_buf_full cbuf)
      then (pos 0, advance_pointer (record cbuf { buffer = put_at cbuf.buffer cbuf.head data_in }))
      else (negsuc 0, cbuf)

  unfoldable pub circular_buf_get : CircularBuf A → Bool → ℤ × Option A × CircularBuf A
  circular_buf_get cbuf peek =
      if not (circular_buf_empty cbuf)
      then (pos 0, some (cbuf.buffer cbuf.tail), if not peek then retreat_pointer cbuf else cbuf)
      else (negsuc 0, none, cbuf)
