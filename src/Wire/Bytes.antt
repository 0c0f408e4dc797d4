-- ===== src/Wire/Bytes.antt =====
-- main/owl/wire.c: what is read from a buffer of bytes is made of bytes.
use esp_owl.Base.{
  IsByte, Bool-cases, Option-cases, ◌-◌, subst, sym, ◌∙◌, le_value, inl, inr, ltb, ◌+◌, ◌<◌, ◌^◌,
  arith, All, List, none, refl, some, drop, take, ℕ, zero, suc, [], ◌∷◌, ◌≡◌,
}
use esp_owl.Base.Int.{pos}
use mathlib.Core.Option.{none-ne-some, some-injective}
use esp_owl.Wire.{
  Buf, buf_data, load, buf_strip, buf_take, checked, read_bytes, read_le16, read_u8, read_tlv, Tlv,
}

-- The memory that a buffer is a window on holds bytes.
abbrev pub HasBytes : Buf → Type 0
HasBytes b = All IsByte b.bytes

pub All-drop : (n : ℕ) (xs : List ℕ) → All IsByte xs → All IsByte (drop n xs)
All-drop zero xs h = h
All-drop (suc n) [] h = h
All-drop (suc n) (x ∷ xs) (here, h) = All-drop n xs h

pub All-take : (n : ℕ) (xs : List ℕ) → All IsByte xs → All IsByte (take n xs)
All-take zero xs h = tt
All-take (suc n) [] h = h
All-take (suc n) (x ∷ xs) (here, h) = (here, All-take n xs h)

pub strip-HasBytes : (b : Buf) (n : ℕ) → HasBytes b → HasBytes (buf_strip b (pos n)).1
unfolding buf_strip
strip-HasBytes b n h = elim (Bool-cases (ltb b.len n)) [ inl e ↦ rw e h | inr e ↦ rw e h ]

pub take-HasBytes : (b : Buf) (n : ℕ) → HasBytes b → HasBytes (buf_take b (pos n)).1
unfolding buf_take
take-HasBytes b n h = elim (Bool-cases (ltb b.len n)) [ inl e ↦ rw e h | inr e ↦ rw e h ]

pub checked-HasBytes :
    (b b' : Buf) (n : ℕ) → HasBytes b → checked (buf_strip b (pos n)) ≡ some b' → HasBytes b'
unfolding buf_strip
checked-HasBytes b b' n h e = elim (Bool-cases (ltb b.len n)) [
  | inl out ↦
      let refused : checked (buf_strip b (pos n)) ≡ none = rw out refl in
      absurd (none-ne-some b' (sym refused ∙ e))
  | inr inside ↦
      let left : Buf = record b { off = b.off + n; len = b.len - n } in
      let given : checked (buf_strip b (pos n)) ≡ some left = rw inside refl in
      subst HasBytes (some-injective left b' (sym given ∙ e)) h
]

-- A strip that is not refused takes as much away as it says.
pub checked_len :
    (b b' : Buf) (n : ℕ) → checked (buf_strip b (pos n)) ≡ some b' → b'.len + n ≡ b.len
unfolding buf_strip
checked_len b b' n e = elim (Bool-cases (ltb b.len n)) [
  | inl out ↦
      let refused : checked (buf_strip b (pos n)) ≡ none = rw out refl in
      absurd (none-ne-some b' (sym refused ∙ e))
  | inr inside ↦
      let left : Buf = record b { off = b.off + n; len = b.len - n } in
      let given : checked (buf_strip b (pos n)) ≡ some left = rw inside refl in
      subst (λ (c : Buf). c.len + n ≡ b.len) (some-injective left b' (sym given ∙ e))
        (ground (arith, inside))
]

pub data-HasBytes : (b : Buf) → HasBytes b → All IsByte (buf_data b)
data-HasBytes b h = All-drop b.off b.bytes h

read_bytes-IsByte :
    (b : Buf) (o n : ℕ) (v : List ℕ) → HasBytes b → read_bytes b (pos o) n ≡ some v → All IsByte v
unfolding read_bytes
read_bytes-IsByte b o n v h e = elim (Bool-cases (ltb b.len (o + n))) [
  | inl out ↦
      let refused : read_bytes b (pos o) n ≡ none = rw out refl in
      absurd (none-ne-some v (sym refused ∙ e))
  | inr inside ↦
      let given : read_bytes b (pos o) n ≡ some (load b o n) = rw inside refl in
      subst (All IsByte) (some-injective (load b o n) v (sym given ∙ e))
        (All-take n _ (All-drop (b.off + o) b.bytes h))
]

le_value_bound : (xs : List ℕ) → All IsByte (take 2 xs) → le_value (take 2 xs) < 2 ^ 16
le_value_bound [] h = omega arith
le_value_bound (x ∷ []) (small, _) = omega (arith, small)
le_value_bound (x ∷ y ∷ xs) (small, (small2, _)) = omega (arith, small, small2)

-- A field of 16 bits is below 2 ^ 16.
pub read_le16_bound : (b : Buf) (o v : ℕ) → HasBytes b → read_le16 b (pos o) ≡ some v → v < 2 ^ 16
unfolding read_le16
read_le16_bound b o v h e = elim (Bool-cases (ltb b.len (o + 2))) [
  | inl out ↦
      let refused : read_le16 b (pos o) ≡ none = rw out refl in
      absurd (none-ne-some v (sym refused ∙ e))
  | inr inside ↦
      let given : read_le16 b (pos o) ≡ some (le_value (load b o 2)) = rw inside refl in
      subst (λ (x : ℕ). x < 2 ^ 16) (some-injective (le_value (load b o 2)) v (sym given ∙ e))
        (le_value_bound _ (All-take 2 _ (All-drop (b.off + o) b.bytes h)))
]

pub read_tlv-HasBytes :
    (b : Buf) (tlv : Tlv) → HasBytes b → read_tlv b (pos 0) ≡ some tlv → All IsByte tlv.val
unfolding read_tlv
read_tlv-HasBytes b tlv h e = elim (Option-cases (read_u8 b (pos 0))) [
  | inl miss ↦
      let refused : read_tlv b (pos 0) ≡ none = rw miss refl in
      absurd (none-ne-some tlv (sym refused ∙ e))
  | inr (type, first) ↦ elim (Option-cases (read_le16 b (pos 1))) [
    | inl miss ↦
        let refused : read_tlv b (pos 0) ≡ none = rw (first, miss) refl in
        absurd (none-ne-some tlv (sym refused ∙ e))
    | inr (len, second) ↦ elim (Option-cases (read_bytes b (pos 3) len)) [
      | inl miss ↦
          let refused : read_tlv b (pos 0) ≡ none = rw (first, second, miss) refl in
          absurd (none-ne-some tlv (sym refused ∙ e))
      | inr (val, third) ↦
          let read : Tlv = record { type = type; len = len; val = val; next = len + 3 } in
          let given : read_tlv b (pos 0) ≡ some read = rw (first, second, third) refl in
          subst (λ (t : Tlv). All IsByte t.val) (some-injective read tlv (sym given ∙ e))
            (read_bytes-IsByte b 3 len val h third)
    ]
  ]
]
