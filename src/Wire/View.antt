-- ===== src/Wire/View.antt =====
-- main/owl/wire.c against byte strings: a valid buffer stands for the bytes of its window.
use esp_owl.Base.{
  Bool-cases, List, Option, [], ap, arith, be_value, drop, drop-drop, drop-take, get_elem?,
  get_elem?-drop, get_or, if◌then◌else◌, inl, inr, le_value, length, length-drop, length-take,
  le→ltb_false, ltb, ltb→lt, lt→ltb, none, refl, some, suc, sym, take, take-take, ℕ, ◌+◌, ◌-◌, ◌<◌,
  ◌>>=◌, ◌∙◌, ◌∷◌, ◌≡◌, ◌≤◌,
}
use esp_owl.Base.Int.{negsuc, pos}
use mathlib.Core.Option
use esp_owl.Ethernet.{ether_addr_of}
use esp_owl.Wire.{
  Buf, buf_orig_len, buf_strip, buf_take, checked, load, out_of_bounds, read_be16, read_be32,
  read_bytes, read_bytes_copy, read_ether_addr, read_int_string, read_le16, read_le32, read_tlv,
  read_u8,
}

-- The window lies inside the array.
pub record IsValid (b : Buf) : Type 0 where
  pub fits : b.off + b.len ≤ length b.bytes

-- The bytes that the buffer stands for.
abbrev pub view : Buf → List ℕ
view b = take b.len (drop b.off b.bytes)

-- The `n` bytes at `o`, if the string has them all.
abbrev pub slice? : List ℕ → ℕ → ℕ → Option (List ℕ)
slice? xs o n = if ltb (length xs) (o + n) then none else some (take n (drop o xs))

pub length-view : (b : Buf) → IsValid b → length (view b) ≡ b.len
length-view b v = omega (arith, length-take b.len (drop b.off b.bytes), length-drop b.off b.bytes)

pub load-view : (b : Buf) (o n : ℕ) → o + n ≤ b.len → load b o n ≡ take n (drop o (view b))
load-view b o n h = sym (
    ap (take n) (drop-take o b.len (drop b.off b.bytes))
    ∙ take-take n (b.len - o) (drop o (drop b.off b.bytes)) (omega arith)
    ∙ ap (take n) (drop-drop o b.off b.bytes))

pub get_or-get_elem? : (xs : List ℕ) (i : ℕ) → i < length xs → some (get_or xs i 0) ≡ get_elem? xs i
get_or-get_elem? [] i h = absurd (omega arith)
get_or-get_elem? (x ∷ xs) ℕ.zero h = refl
get_or-get_elem? (x ∷ xs) (suc i) h = get_or-get_elem? xs i (omega arith)

get_elem?-take : (n : ℕ) (xs : List ℕ) (i : ℕ) → i < n → get_elem? (take n xs) i ≡ get_elem? xs i
get_elem?-take ℕ.zero xs i h = absurd (omega arith)
get_elem?-take (suc n) [] i h = refl
get_elem?-take (suc n) (x ∷ xs) ℕ.zero h = refl
get_elem?-take (suc n) (x ∷ xs) (suc i) h = get_elem?-take n xs i (omega arith)

get_elem?_past : (xs : List ℕ) (i : ℕ) → length xs ≤ i → get_elem? xs i ≡ none
get_elem?_past [] i h = refl
get_elem?_past (x ∷ xs) ℕ.zero h = absurd (omega arith)
get_elem?_past (x ∷ xs) (suc i) h = get_elem?_past xs i (omega arith)

pub read_u8-view : (b : Buf) (o : ℕ) → IsValid b → read_u8 b (pos o) ≡ get_elem? (view b) o
unfolding read_u8
read_u8-view b o v = elim (Bool-cases (ltb b.len (o + 1))) [
  | inl out ↦
      rw out
        (sym (get_elem?_past (view b) o (omega (arith, length-view b v, ltb→lt b.len (o + 1) out))))
  | inr inside ↦
      let h : o < b.len = ground arith in
      rw inside (
        get_or-get_elem? b.bytes (b.off + o) (omega (arith, v.fits))
        ∙ sym (get_elem?-drop b.bytes b.off o)
        ∙ sym (get_elem?-take b.len (drop b.off b.bytes) o h))
]

pub read_bytes-view : (b : Buf) (o n : ℕ) → IsValid b → read_bytes b (pos o) n ≡ slice? (view b) o n
unfolding read_bytes
read_bytes-view b o n v = rw (length-view b v) (elim (Bool-cases (ltb b.len (o + n))) [
  | inl out ↦ rw out
  | inr inside ↦ rw inside (ap some (load-view b o n (ground arith)))
])

bind_map {ℓ κ} :
    {A : Type ℓ} {B : Type κ} {m n : Option A} (f : A → B)
    → m ≡ n
    → (m >>= λ a. some (f a)) ≡ Option.map f n
bind_map {m = m} {n = none} f e = rw e
bind_map {m = m} {n = some a} f e = rw e

-- The reads of one field at an offset that is not negative are functions of the view of a valid
-- buffer: a byte by its index, a number of two or four bytes, of either order, an address and a byte
-- string by its slice, and what does not fit is refused. At a negative offset each of them is
-- refused, and so are the read of a string with its length and the read of a TLV.
pub reads-view :
    (b : Buf) (o n : ℕ)
    → IsValid b
    → (read_u8 b (pos o) ≡ get_elem? (view b) o)
      × (read_le16 b (pos o) ≡ Option.map le_value (slice? (view b) o 2))
      × (read_be16 b (pos o) ≡ Option.map be_value (slice? (view b) o 2))
      × (read_le32 b (pos o) ≡ Option.map le_value (slice? (view b) o 4))
      × (read_be32 b (pos o) ≡ Option.map be_value (slice? (view b) o 4))
      × (read_ether_addr b (pos o) ≡ Option.map ether_addr_of (slice? (view b) o 6))
      × (read_bytes b (pos o) n ≡ slice? (view b) o n)
      × (read_bytes_copy b (pos o) n ≡ slice? (view b) o n)
      × (read_u8 b (negsuc n) ≡ none)
      × (read_bytes b (negsuc o) n ≡ none)
      × (read_le16 b (negsuc o) ≡ none)
      × (read_be16 b (negsuc o) ≡ none)
      × (read_le32 b (negsuc o) ≡ none)
      × (read_be32 b (negsuc o) ≡ none)
      × (read_ether_addr b (negsuc o) ≡ none)
      × (read_bytes_copy b (negsuc o) n ≡ none)
      × (read_int_string b (negsuc o) n ≡ none)
      × (read_tlv b (negsuc o) ≡ none)
unfolding read_u8 read_le16 read_be16 read_le32 read_be32 read_ether_addr read_bytes_copy read_bytes
    read_int_string read_tlv
reads-view b o n v =
    let whole = read_bytes-view b o in
    (
      read_u8-view b o v,
      bind_map le_value (whole 2 v),
      bind_map be_value (whole 2 v),
      bind_map le_value (whole 4 v),
      bind_map be_value (whole 4 v),
      bind_map ether_addr_of (whole 6 v),
      whole n v,
      whole n v,
      refl,
      refl,
      refl,
      refl,
      refl,
      refl,
      refl,
      refl,
      refl,
      refl,
    )

-- Stripping and taking cut the view at its front and at its end; what is too long for the window,
-- or negative, changes nothing and returns -1. The buffer stays valid, and the array with the
-- place where the window's strip ends stays.
pub strip-take-view :
    (b : Buf) (n : ℕ)
    → IsValid b
    → n ≤ b.len
    → (view (buf_strip b (pos n)).1 ≡ drop n (view b))
      × (view (buf_take b (pos n)).1 ≡ take (b.len - n) (view b))
      × IsValid (buf_strip b (pos n)).1
      × IsValid (buf_take b (pos n)).1
      × (buf_orig_len (buf_strip b (pos n)).1 ≡ buf_orig_len b)
      × ((buf_strip b (pos n)).0 ≡ pos n)
      × ((buf_take b (pos n)).0 ≡ pos n)
unfolding buf_strip buf_take
strip-take-view b n v h = rw (le→ltb_false b.len n h) (
  ap (take (b.len - n)) (sym (drop-drop n b.off b.bytes))
      ∙ sym (drop-take n b.len (drop b.off b.bytes)),
  sym (take-take (b.len - n) b.len (drop b.off b.bytes) (omega arith)),
  record { fits = omega (arith, v.fits) },
  record { fits = omega (arith, v.fits) },
  omega arith,
  refl,
  refl,
)

pub strip-take_refused :
    (b : Buf) (n k : ℕ)
    → b.len < n
    → (buf_strip b (pos n) ≡ (out_of_bounds, b))
      × (buf_take b (pos n) ≡ (out_of_bounds, b))
      × (buf_strip b (negsuc k) ≡ (out_of_bounds, b))
      × (buf_take b (negsuc k) ≡ (out_of_bounds, b))
unfolding buf_strip buf_take
strip-take_refused b n k h = rw (lt→ltb b.len n h) (refl, refl, refl, refl)

pub checked-buf_strip :
    (b : Buf) (n : ℕ) → n ≤ b.len → checked (buf_strip b (pos n)) ≡ some (buf_strip b (pos n)).1
unfolding buf_strip
checked-buf_strip b n h = rw (le→ltb_false b.len n h) refl

pub strip_nothing : (b : Buf) → (buf_strip b (pos 0)).1 ≡ b
unfolding buf_strip
strip_nothing b =
    let off : b.off + 0 ≡ b.off = omega arith in
    let len : b.len - 0 ≡ b.len = omega arith in
    rw (le→ltb_false b.len 0 (omega arith)) (λ i. record b { off = off i; len = len i })

-- Two strips are one.
pub strip-strip :
    (b : Buf) (m n : ℕ)
    → m + n ≤ b.len
    → (buf_strip (buf_strip b (pos m)).1 (pos n)).1 ≡ (buf_strip b (pos (m + n))).1
unfolding buf_strip
strip-strip b m n h =
    let off : b.off + m + n ≡ b.off + (m + n) = omega arith in
    let len : b.len - m - n ≡ b.len - (m + n) = omega arith in
    rw
      (
        le→ltb_false b.len m (omega (arith, h)),
        le→ltb_false b.len (m + n) h,
        le→ltb_false (b.len - m) n (omega (arith, h)),
      )
      (λ i. record b { off = off i; len = len i })
