-- ===== src/Wire/Tlvs.antt =====
-- `read_tlv` of main/owl/wire.c: bounds, and that it inverts the encoding of a TLV.
use mathlib.Core.Option
use mathlib.Core.Option
use esp_owl.Base.{
  List, [], ap, arith, drop, drop-drop, drop_append, le_bytes, le_value, length, length-append,
  length-drop, length-take, le→ltb_false, some, sym, take_append, ℕ, ◌++◌, ◌+◌, ◌<◌, ◌^◌, ◌∙◌, ◌∷◌,
  ◌≡◌, ◌≤◌,
}
use esp_owl.Base.Int.{pos}
use esp_owl.Wire.{Buf, Tlv, buf_strip, load, read_bytes, read_le16, read_tlv, read_u8}
use esp_owl.Wire.View.{
  IsValid, length-view, read_bytes-view, read_u8-view, reads-view, slice?, strip-take-view, view,
}

-- A TLV on the wire: its type, the length of its value in little-endian order, its value.
abbrev pub tlv_bytes : ℕ → List ℕ → List ℕ
tlv_bytes type val = type ∷ (le_bytes 2 (length val) ++ val)

length-load : (b : Buf) (o n : ℕ) → IsValid b → o + n ≤ b.len → length (load b o n) ≡ n
length-load b o n v h =
    omega (arith, v.fits, length-take n (drop (b.off + o) b.bytes), length-drop (b.off + o) b.bytes)

pub slice?_append :
    (pre xs rest : List ℕ) → slice? (pre ++ (xs ++ rest)) (length pre) (length xs) ≡ some xs
slice?_append pre xs rest =
    let total : length (pre ++ (xs ++ rest)) ≡ length pre + (length xs + length rest) =
      omega (arith, length-append pre (xs ++ rest), length-append xs rest) in
    rw (
      le→ltb_false (length (pre ++ (xs ++ rest))) (length pre + length xs) (omega arith),
      drop_append pre (xs ++ rest),
      take_append xs rest,
    )

-- What `read_tlv` returns lies in the window: the next TLV begins at least three bytes on and
-- not past the end, and the value has as many bytes as the length field says.
pub read_tlv_bounds :
    (b : Buf) (o : ℕ) (t : Tlv)
    → IsValid b
    → read_tlv b (pos o) ≡ some t
    → (t.next ≡ length t.val + 3) × (length t.val ≡ t.len) × (o + t.next ≤ b.len)
unfolding read_tlv read_u8 read_le16 read_bytes
read_tlv_bounds b o t v h = ground (arith, length-load b (o + 3) (le_value (load b (o + 1) 2)) v)

-- On a window that begins with an encoded TLV, `read_tlv` returns its type and value, and
-- stripping by the returned offset leaves what follows. A value has at most 65535 bytes.
pub read_tlv-tlv_bytes :
    (b : Buf) (type : ℕ) (val rest : List ℕ)
    → IsValid b
    → length val < 2 ^ 16
    → view b ≡ tlv_bytes type val ++ rest
    → (read_tlv b (pos 0)
        ≡ some (record { type = type; len = length val; val = val; next = length val + 3 }))
      × (view (buf_strip b (pos (length val + 3))).1 ≡ rest)
unfolding read_tlv
read_tlv-tlv_bytes b type val rest v small e =
    let n = length val in
    let total : b.len ≡ n + 3 + length rest = omega (
      arith,
      length-view b v,
      ap length e,
      length-append (tlv_bytes type val) rest,
      length-append (le_bytes 2 n) val,
    ) in
    let field : read_le16 b (pos 1) ≡ some n =
      (reads-view b 1 0 v).1
      ∙ ap (λ w. Option.map le_value (slice? w 1 2)) e
      ∙ ap (Option.map le_value) (slice?_append (type ∷ []) (le_bytes 2 n) (val ++ rest))
      ∙ ap some (omega arith) in
    let value : read_bytes b (pos 3) n ≡ some val =
      read_bytes-view b 3 n v
      ∙ ap (λ w. slice? w 3 n) e
      ∙ slice?_append (type ∷ le_bytes 2 n) val rest in
    (
      rw (read_u8-view b 0 v, e, field, value),
      (strip-take-view b (n + 3) v (omega arith)).0
          ∙ ap (λ w. drop (n + 3) w) e
          ∙ ap (λ k. drop k (tlv_bytes type val ++ rest)) {y = 3 + n} (omega arith)
          ∙ sym (drop-drop n 3 (tlv_bytes type val ++ rest))
          ∙ drop_append val rest,
    )
