-- ===== src/Wire/Tests.antt =====
-- The buffers of main/owl/wire.c on a small array.
use esp_owl.Base.{List, [], arith, false, get_elem?, none, refl, replicate, some, true, ℕ, ◌∷◌, ◌≡◌}
use esp_owl.Base.Int.{negsuc, pos}
use esp_owl.Ethernet.{EtherAddr, octets}
use esp_owl.Wire.{
  Buf, Tlv, buf_new_const, buf_new_owned, buf_strip, out_of_bounds, read_be16, read_be32,
  read_bytes, read_bytes_copy, read_ether_addr, read_int_string, read_le16, read_le32, read_tlv,
  read_u8, write_be16, write_be32, write_bytes, write_ether_addr, write_le16, write_le32, write_u8,
}
use esp_owl.Wire.View.{IsValid, reads-view, view}
use esp_owl.Wire.RoundTrip.{Checked, writes-view}
use esp_owl.Wire.Tlvs.{read_tlv-tlv_bytes}

-- Two bytes are already stripped, and three follow the window.
abbrev array : List ℕ
array = 9 ∷ 8 ∷ 21 ∷ 2 ∷ 0 ∷ 0x34 ∷ 1 ∷ 77 ∷ 0 ∷ 0 ∷ 0 ∷ []

abbrev window : Buf
window = record { bytes = array; off = 2; len = 6; owned = false }

abbrev window-IsValid : IsValid window
window-IsValid = omega arith

abbrev some_addr : EtherAddr
some_addr = record { octet0 = 1; octet1 = 2; octet2 = 3; octet3 = 4; octet4 = 5; octet5 = 6 }

abbrev version : Tlv
version = record { type = 21; len = 2; val = 0x34 ∷ 1 ∷ []; next = 5 }

reads : (read_le16 window (pos 1) ≡ some 2) × (read_be16 window (pos 3) ≡ some 0x3401)
unfolding read_le16 read_be16
reads = (refl, refl)

past_the_end : (read_u8 window (pos 6) ≡ none) × (read_le32 window (pos 3) ≡ none)
unfolding read_u8 read_le32
past_the_end = (refl, refl)

string_is_cut : read_int_string window (pos 1) 1 ≡ some (0 ∷ [], 2)
unfolding read_int_string read_u8 read_bytes_copy
string_is_cut = refl

allocates :
    (buf_new_owned (λ n. replicate n 0) (pos 2)
      ≡ some (record { bytes = 0 ∷ 0 ∷ []; off = 0; len = 2; owned = true }))
    × (buf_new_const array (negsuc 0) ≡ none)
unfolding buf_new_owned buf_new_const
allocates = (refl, refl)

reads_tlv : read_tlv window (pos 0) ≡ some version
unfolding read_tlv read_u8 read_le16 read_bytes
reads_tlv = refl

reads-view_example :
    (read_u8 window (pos 1) ≡ get_elem? (view window) 1)
    × (read_le16 window (pos 1) ≡ some 2)
    × (read_be16 window (pos 1) ≡ some 512)
    × (read_le32 window (pos 1) ≡ some 0x1340002)
    × (read_be32 window (pos 1) ≡ some 0x2003401)
    × (read_ether_addr window (pos 1) ≡ none)
    × (read_bytes window (pos 1) 2 ≡ some (2 ∷ 0 ∷ []))
    × (read_bytes_copy window (pos 1) 2 ≡ some (2 ∷ 0 ∷ []))
    × (read_u8 window (negsuc 2) ≡ none)
    × (read_bytes window (negsuc 1) 2 ≡ none)
    × (read_le16 window (negsuc 1) ≡ none)
    × (read_be16 window (negsuc 1) ≡ none)
    × (read_le32 window (negsuc 1) ≡ none)
    × (read_be32 window (negsuc 1) ≡ none)
    × (read_ether_addr window (negsuc 1) ≡ none)
    × (read_bytes_copy window (negsuc 1) 2 ≡ none)
    × (read_int_string window (negsuc 1) 2 ≡ none)
    × (read_tlv window (negsuc 1) ≡ none)
reads-view_example = reads-view window 1 2 window-IsValid

writes-view_example :
    Checked window 3 (44 ∷ []) (write_u8 window (pos 3) 300)
    × Checked window 3 (44 ∷ 1 ∷ []) (write_le16 window (pos 3) 300)
    × Checked window 3 (1 ∷ 44 ∷ []) (write_be16 window (pos 3) 300)
    × Checked window 3 (44 ∷ 1 ∷ 0 ∷ 0 ∷ []) (write_le32 window (pos 3) 300)
    × Checked window 3 (0 ∷ 0 ∷ 1 ∷ 44 ∷ []) (write_be32 window (pos 3) 300)
    × Checked window 3 (octets some_addr) (write_ether_addr window (pos 3) some_addr)
    × Checked window 3 (5 ∷ 6 ∷ []) (write_bytes window (pos 3) (5 ∷ 6 ∷ []) 2)
    × (write_u8 window (negsuc 3) 300 ≡ (out_of_bounds, window))
    × (write_le16 window (negsuc 3) 300 ≡ (out_of_bounds, window))
    × (write_be16 window (negsuc 3) 300 ≡ (out_of_bounds, window))
    × (write_le32 window (negsuc 3) 300 ≡ (out_of_bounds, window))
    × (write_be32 window (negsuc 3) 300 ≡ (out_of_bounds, window))
    × (write_ether_addr window (negsuc 3) some_addr ≡ (out_of_bounds, window))
    × (write_bytes window (negsuc 3) (5 ∷ 6 ∷ []) 2 ≡ (out_of_bounds, window))
writes-view_example = writes-view window 3 300 some_addr (5 ∷ 6 ∷ []) window-IsValid

read_tlv-tlv_bytes_example :
    (read_tlv window (pos 0) ≡ some version) × (view (buf_strip window (pos 5)).1 ≡ 77 ∷ [])
read_tlv-tlv_bytes_example =
    read_tlv-tlv_bytes window 21 (0x34 ∷ 1 ∷ []) (77 ∷ []) window-IsValid (omega arith) refl
