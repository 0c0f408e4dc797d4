-- ===== src/Wire.antt =====
-- main/owl/wire.c: a window on a byte array, with checked reads and writes.
-- A pointer into the array is an index. `int` offsets are integers, lengths are numbers, and
-- an access that is refused returns `none` or `out_of_bounds`, the source's -1.
pub mod View
pub mod RoundTrip
pub mod Tlvs
pub mod Bytes
mod Tests
use esp_owl.Base.{
  Bool, List, Option, [], be_bytes, be_value, drop, false, get_or, if◌then◌else◌, le_bytes,
  le_value, ltb, none, set_all, some, take, true, ℕ, ◌%◌, ◌+◌, ◌-◌, ◌>>=◌, ◌∷◌,
}
use esp_owl.Base.Int.{negsuc, pos, pos_part, ℤ}
use esp_owl.Ethernet.{EtherAddr, ether_addr_len, ether_addr_of, octets}

-- `struct buf`: `bytes` is the array at `orig`, `off` is `data - orig`.
pub record Buf : Type 0 where
  pub bytes : List ℕ
  pub off : ℕ
  pub len : ℕ
  pub owned : Bool

abbrev pub out_of_bounds : ℤ
out_of_bounds = negsuc 0

-- `alloc n` stands for the array that `malloc(n)` returns, whose contents are arbitrary.
pub buf_new_owned : (alloc : ℕ → List ℕ) → ℤ → Option Buf
buf_new_owned alloc (negsuc _) = none
buf_new_owned alloc (pos n) = some (record { bytes = alloc n; off = 0; len = n; owned = true })

unfoldable pub buf_new_const : List ℕ → ℤ → Option Buf
buf_new_const bytes (negsuc _) = none
buf_new_const bytes (pos n) = some (record { bytes = bytes; off = 0; len = n; owned = false })

-- The array from the `data` pointer on.
abbrev pub buf_data : Buf → List ℕ
buf_data b = drop b.off b.bytes

abbrev pub buf_orig : Buf → List ℕ
buf_orig b = b.bytes

abbrev pub buf_orig_len : Buf → ℕ
buf_orig_len b = b.off + b.len

abbrev pub buf_len : Buf → ℕ
buf_len b = b.len

pub buf_strip : Buf → ℤ → ℤ × Buf
buf_strip b (negsuc _) = (out_of_bounds, b)
buf_strip b (pos n) =
    if ltb b.len n
    then (out_of_bounds, b)
    else (pos n, record b { off = b.off + n; len = b.len - n })

pub buf_take : Buf → ℤ → ℤ × Buf
buf_take b (negsuc _) = (out_of_bounds, b)
buf_take b (pos n) =
    if ltb b.len n then (out_of_bounds, b) else (pos n, record b { len = b.len - n })

-- `BUF_STRIP` and `BUF_TAKE`: `none` is the jump to `wire_error`.
abbrev pub checked : ℤ × Buf → Option Buf
checked (pos _, b) = some b
checked (negsuc _, b) = none

-- `offset < 0 || offset + n > buf->len`. The sum is not cut: no offset of the program comes near the
-- bound of an `int`.
abbrev pub outside : Buf → ℤ → ℕ → Bool
outside b (negsuc _) n = true
outside b (pos o) n = ltb b.len (o + n)

-- The `n` bytes at `buf->data + o`, and a store there.
abbrev pub load : Buf → ℕ → ℕ → List ℕ
load b o n = take n (drop (b.off + o) b.bytes)

abbrev pub store : Buf → ℕ → List ℕ → Buf
store b o vs = record b { bytes = set_all b.bytes (b.off + o) vs }

abbrev write : Buf → ℤ → List ℕ → ℕ → ℤ × Buf
write b o vs n = if outside b o n then (out_of_bounds, b) else (pos n, store b (pos_part o) vs)

unfoldable pub write_u8 : Buf → ℤ → ℕ → ℤ × Buf
write_u8 b o v = write b o (v % 256 ∷ []) 1

pub write_le16 : Buf → ℤ → ℕ → ℤ × Buf
write_le16 b o v = write b o (le_bytes 2 v) 2

unfoldable pub write_be16 : Buf → ℤ → ℕ → ℤ × Buf
write_be16 b o v = write b o (be_bytes 2 v) 2

pub write_le32 : Buf → ℤ → ℕ → ℤ × Buf
write_le32 b o v = write b o (le_bytes 4 v) 4

pub write_be32 : Buf → ℤ → ℕ → ℤ × Buf
write_be32 b o v = write b o (be_bytes 4 v) 4

unfoldable pub write_ether_addr : Buf → ℤ → EtherAddr → ℤ × Buf
write_ether_addr b o a = write b o (octets a) ether_addr_len

-- `memcpy` takes the first `n` bytes of the source.
unfoldable pub write_bytes : Buf → ℤ → List ℕ → ℕ → ℤ × Buf
write_bytes b o vs n = write b o (take n vs) n

abbrev read : Buf → ℤ → ℕ → Option (List ℕ)
read b o n = if outside b o n then none else some (load b (pos_part o) n)

-- The value is what goes through the pointer. Of the returned counts only those that depend on
-- the data are kept: the others are the width of the read.
unfoldable pub read_u8 : Buf → ℤ → Option ℕ
read_u8 b o = if outside b o 1 then none else some (get_or b.bytes (b.off + pos_part o) 0)

unfoldable pub read_le16 : Buf → ℤ → Option ℕ
read_le16 b o = do bs ← read b o 2; some (le_value bs)

unfoldable pub read_be16 : Buf → ℤ → Option ℕ
read_be16 b o = do bs ← read b o 2; some (be_value bs)

unfoldable pub read_le32 : Buf → ℤ → Option ℕ
read_le32 b o = do bs ← read b o 4; some (le_value bs)

pub read_be32 : Buf → ℤ → Option ℕ
read_be32 b o = do bs ← read b o 4; some (be_value bs)

unfoldable pub read_ether_addr : Buf → ℤ → Option EtherAddr
read_ether_addr b o = do bs ← read b o ether_addr_len; some (ether_addr_of bs)

-- Of the returned pointer, the `n` bytes that may be read through it.
pub read_bytes : Buf → ℤ → ℕ → Option (List ℕ)
read_bytes b o n = read b o n

unfoldable pub read_bytes_copy : Buf → ℤ → ℕ → Option (List ℕ)
read_bytes_copy b o n = read b o n

-- A string with its length in front, cut at `n`, and the returned count. A negative offset fails
-- at the first read.
unfoldable pub read_int_string : Buf → ℤ → ℕ → Option (List ℕ × ℕ)
read_int_string b (negsuc _) n = none
read_int_string b (pos o) n = do
  len ← read_u8 b (pos o)
  let cut = if ltb n len then n else len
  str ← read_bytes_copy b (pos (o + 1)) cut
  some (str, cut + 1)

pub record Tlv : Type 0 where
  pub type : ℕ
  pub len : ℕ
  pub val : List ℕ
  -- the returned offset to the next one
  pub next : ℕ

unfoldable pub read_tlv : Buf → ℤ → Option Tlv
read_tlv b (negsuc _) = none
read_tlv b (pos o) = do
  type ← read_u8 b (pos o)
  len ← read_le16 b (pos (o + 1))
  val ← read_bytes b (pos (o + 3)) len
  some (record { type = type; len = len; val = val; next = len + 3 })
