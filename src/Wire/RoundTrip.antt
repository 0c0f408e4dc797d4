-- ===== src/Wire/RoundTrip.antt =====
-- main/owl/wire.c: what a checked write does to the view, and that a read returns what was written.
use esp_owl.Base.Overwrite.{drop-set_all_behind, take-set_all_front}
use esp_owl.Base.{
  Bool-cases, drop, if◌then◌else◌, inl, inr, ltb, ◌⊎◌, List, [], ap, arith, be_bytes, drop,
  drop-set_all, le_bytes, length, length-set_all, le→ltb_false, refl, set_all, some, sym, take,
  take-drop-set_all, take-set_all, take_all, ℕ, ◌%◌, ◌+◌, ◌<◌, ◌^◌, ◌∙◌, ◌∷◌, ◌≡◌, ◌≤◌,
}
use esp_owl.Base.Int.{negsuc, pos, ℤ}
use esp_owl.Ethernet.{EtherAddr, octets}
use esp_owl.Wire.{
  Buf, load, out_of_bounds, read_be16, read_be32, read_le16, read_le32, store, write_be16,
  write_be32, write_bytes, write_ether_addr, write_le16, write_le32, write_u8,
}
use esp_owl.Wire.View.{IsValid, view}

store-IsValid : (b : Buf) (o : ℕ) (vs : List ℕ) → IsValid b → IsValid (store b o vs)
store-IsValid b o vs v = record {
  fits = omega (arith, v.fits, length-set_all b.bytes (b.off + o) vs);
}

view-store : (b : Buf) (o : ℕ) (vs : List ℕ) → view (store b o vs) ≡ set_all (view b) o vs
view-store b o vs =
    ap (take b.len) (drop-set_all b.off b.bytes o vs) ∙ take-set_all b.len (drop b.off b.bytes) o vs

load-store :
    (b : Buf) (o : ℕ) (vs : List ℕ)
    → IsValid b
    → o + length vs ≤ b.len
    → load (store b o vs) o (length vs) ≡ vs
load-store b o vs v h = take-drop-set_all b.bytes (b.off + o) vs (omega (arith, v.fits))

-- A write replaces its bytes in the view and nothing else.
abbrev pub Writes : Buf → ℕ → List ℕ → ℤ × Buf → Type 0
Writes b o vs r =
    (r.0 ≡ pos (length vs)) × (view r.1 ≡ set_all (view b) o vs) × IsValid r.1 × (r.1.len ≡ b.len)

store-Writes :
    (b : Buf) (o : ℕ) (vs : List ℕ) → IsValid b → Writes b o vs (pos (length vs), store b o vs)
store-Writes b o vs v = (refl, view-store b o vs, store-IsValid b o vs v, refl)

-- Each checked write that fits returns its width, puts the encoding of the value into the
-- view at the offset, and keeps the length and the validity of the buffer.
pub write-view :
    (b : Buf) (o x : ℕ) (a : EtherAddr) (vs : List ℕ)
    → IsValid b
    → o + 6 ≤ b.len
    → o + length vs ≤ b.len
    → Writes b o (x % 256 ∷ []) (write_u8 b (pos o) x)
      × Writes b o (le_bytes 2 x) (write_le16 b (pos o) x)
      × Writes b o (be_bytes 2 x) (write_be16 b (pos o) x)
      × Writes b o (le_bytes 4 x) (write_le32 b (pos o) x)
      × Writes b o (be_bytes 4 x) (write_be32 b (pos o) x)
      × Writes b o (octets a) (write_ether_addr b (pos o) a)
      × Writes b o vs (write_bytes b (pos o) vs (length vs))
unfolding write_u8 write_le16 write_be16 write_le32 write_be32 write_ether_addr write_bytes
write-view b o x a vs v six all =
    rw
      (
        le→ltb_false b.len (o + 1) (omega arith),
        le→ltb_false b.len (o + 2) (omega arith),
        le→ltb_false b.len (o + 4) (omega arith),
        le→ltb_false b.len (o + 6) six,
        le→ltb_false b.len (o + length vs) all,
        take_all vs,
      )
      (
        store-Writes b o (x % 256 ∷ []) v,
        store-Writes b o (le_bytes 2 x) v,
        store-Writes b o (be_bytes 2 x) v,
        store-Writes b o (le_bytes 4 x) v,
        store-Writes b o (be_bytes 4 x) v,
        store-Writes b o (octets a) v,
        store-Writes b o vs v,
      )

-- A write of so many bytes succeeds exactly when they fit into the window. Then they are in the view
-- at the offset, and the array is the same in front of them and behind them; otherwise the result is
-- -1, and the buffer is the same.
abbrev pub Checked : Buf → ℕ → List ℕ → ℤ × Buf → Type 0
Checked b o vs r =
    ((b.len < o + length vs) × (r ≡ (out_of_bounds, b)))
    ⊎ ((o + length vs ≤ b.len)
        × Writes b o vs r
        × (take (b.off + o) r.1.bytes ≡ take (b.off + o) b.bytes)
        × (drop (b.off + o + length vs) r.1.bytes ≡ drop (b.off + o + length vs) b.bytes))

store-Checked :
    (b : Buf) (o n : ℕ) (vs : List ℕ)
    → IsValid b
    → length vs ≡ n
    → Checked b o vs (if ltb b.len (o + n) then (out_of_bounds, b) else (pos n, store b o vs))
store-Checked b o n vs v e = elim (Bool-cases (ltb b.len (o + n))) [
  | inl out ↦ rw out (inl (ground (arith, out, e), refl))
  | inr inside ↦
      let written : Writes b o vs (pos n, store b o vs) =
        (ap pos (sym e), view-store b o vs, store-IsValid b o vs v, refl) in
      rw inside (
        inr (
          ground (arith, inside, e),
          written,
          take-set_all_front b.bytes (b.off + o) vs,
          drop-set_all_behind b.bytes (b.off + o) vs,
        ))
]

-- Each checked write at an offset that is not negative succeeds exactly when its own bytes fit into
-- the window. Then it returns its width, puts the encoding of the value into the view at the offset,
-- changes no byte of the array in front of it or behind it, and keeps the length and the validity of
-- the buffer. Otherwise, and at each negative offset, it returns -1 and changes nothing.
pub writes-view :
    (b : Buf) (o x : ℕ) (a : EtherAddr) (vs : List ℕ)
    → IsValid b
    → Checked b o (x % 256 ∷ []) (write_u8 b (pos o) x)
      × Checked b o (le_bytes 2 x) (write_le16 b (pos o) x)
      × Checked b o (be_bytes 2 x) (write_be16 b (pos o) x)
      × Checked b o (le_bytes 4 x) (write_le32 b (pos o) x)
      × Checked b o (be_bytes 4 x) (write_be32 b (pos o) x)
      × Checked b o (octets a) (write_ether_addr b (pos o) a)
      × Checked b o vs (write_bytes b (pos o) vs (length vs))
      × (write_u8 b (negsuc o) x ≡ (out_of_bounds, b))
      × (write_le16 b (negsuc o) x ≡ (out_of_bounds, b))
      × (write_be16 b (negsuc o) x ≡ (out_of_bounds, b))
      × (write_le32 b (negsuc o) x ≡ (out_of_bounds, b))
      × (write_be32 b (negsuc o) x ≡ (out_of_bounds, b))
      × (write_ether_addr b (negsuc o) a ≡ (out_of_bounds, b))
      × (write_bytes b (negsuc o) vs (length vs) ≡ (out_of_bounds, b))
unfolding write_u8 write_le16 write_be16 write_le32 write_be32 write_ether_addr write_bytes
writes-view b o x a vs v = rw (take_all vs) (
  store-Checked b o 1 (x % 256 ∷ []) v refl,
  store-Checked b o 2 (le_bytes 2 x) v refl,
  store-Checked b o 2 (be_bytes 2 x) v refl,
  store-Checked b o 4 (le_bytes 4 x) v refl,
  store-Checked b o 4 (be_bytes 4 x) v refl,
  store-Checked b o 6 (octets a) v refl,
  store-Checked b o (length vs) vs v refl,
  refl,
  refl,
  refl,
  refl,
  refl,
  refl,
  refl,
)

-- What is written is read back, in both byte orders: 16 and 32 bits.
pub read-write_16 :
    (b : Buf) (o x : ℕ)
    → IsValid b
    → o + 2 ≤ b.len
    → x < 2 ^ 16
    → (read_le16 (write_le16 b (pos o) x).1 (pos o) ≡ some x)
      × (read_be16 (write_be16 b (pos o) x).1 (pos o) ≡ some x)
unfolding write_le16 write_be16 read_le16 read_be16
read-write_16 b o x v h small =
    let fits = le→ltb_false b.len (o + 2) h in
    rw (fits, fits, load-store b o (le_bytes 2 x) v h, load-store b o (be_bytes 2 x) v h)
      (ap some (omega arith), ap some (omega arith))

pub read-write_32 :
    (b : Buf) (o x : ℕ)
    → IsValid b
    → o + 4 ≤ b.len
    → x < 2 ^ 32
    → (read_le32 (write_le32 b (pos o) x).1 (pos o) ≡ some x)
      × (read_be32 (write_be32 b (pos o) x).1 (pos o) ≡ some x)
unfolding write_le32 write_be32 read_le32 read_be32
read-write_32 b o x v h small =
    let fits = le→ltb_false b.len (o + 4) h in
    rw (fits, fits, load-store b o (le_bytes 4 x) v h, load-store b o (be_bytes 4 x) v h)
      (ap some (omega arith), ap some (omega arith))
