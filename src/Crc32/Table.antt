-- ===== src/Crc32/Table.antt =====
-- main/owl/crc32.c: the table against the polynomial that it is made from.
use esp_owl.Base.{
  List, [], bit_and, bit_xor, if◌then◌else◌, refl, suc, zero, ℕ, ◌+◌, ◌/◌, ◌==◌, ◌∷◌, ◌≡◌,
}
use esp_owl.Crc32.{crc32, crc32_tab}

-- One bit of the division by the reflected polynomial of CRC-32.
abbrev reduce_bit : ℕ → ℕ
reduce_bit r = if bit_and r 1 == 0 then r / 2 else bit_xor (r / 2) 0xedb88320

abbrev reduce_byte : ℕ → ℕ → ℕ
reduce_byte zero r = r
reduce_byte (suc bits) r = reduce_byte bits (reduce_bit r)

abbrev remainders : ℕ → ℕ → List ℕ
remainders zero i = []
remainders (suc left) i = reduce_byte 8 i ∷ remainders left (i + 1)

-- Entry i of the table is the remainder of the byte i: eight rounds of the bit by bit division.
pub crc32_tab-remainders : crc32_tab ≡ remainders 256 0
unfolding crc32_tab
crc32_tab-remainders = refl

-- The check value of CRC-32: the remainder of the nine digits.
abbrev digits : List ℕ
digits = b'1' ∷ b'2' ∷ b'3' ∷ b'4' ∷ b'5' ∷ b'6' ∷ b'7' ∷ b'8' ∷ b'9' ∷ []

check_value : crc32 digits ≡ 0xcbf43926
unfolding crc32
check_value = refl
