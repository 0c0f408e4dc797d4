-- ===== src/Core.antt =====
-- main/wifi/core.c, awdl.c and capture.c: the conversions of addresses, what the timers do, and what
-- becomes of a captured frame.
pub mod Addresses
pub mod MacText
pub mod Daemon
pub mod Deliver
pub mod Timers
pub mod Clean
pub mod Capture
pub mod Host
pub mod Air
pub mod Events
pub mod Tests
use esp_owl.Base.{
  Bool, List, Option, [], bit_xor, false, get_or, if◌then◌else◌, leb, length, ltb, none, not, some,
  suc, true, zero, ℕ, ◌%◌, ◌&&◌, ◌*◌, ◌++◌, ◌+◌, ◌-◌, ◌/◌, ◌==◌, ◌||◌, ◌∷◌,
}
use esp_owl.Ethernet.{EtherAddr}

-- A `struct in6_addr` is the list of its 16 bytes.
unfoldable pub ether_addr_to_in6_addr : EtherAddr → List ℕ
ether_addr_to_in6_addr addr =
    0xfe
    ∷ 0x80
    ∷ 0x00
    ∷ 0x00
    ∷ 0x00
    ∷ 0x00
    ∷ 0x00
    ∷ 0x00
    ∷ bit_xor addr.octet0 0x02
    ∷ addr.octet1
    ∷ addr.octet2
    ∷ 0xff
    ∷ 0xfe
    ∷ addr.octet3
    ∷ addr.octet4
    ∷ addr.octet5
    ∷ []

unfoldable pub in6_addr_to_ether_addr : List ℕ → EtherAddr
in6_addr_to_ether_addr addr = record {
  octet0 = bit_xor (get_or addr 8 0) 0x02;
  octet1 = get_or addr 9 0;
  octet2 = get_or addr 10 0;
  octet3 = get_or addr 13 0;
  octet4 = get_or addr 14 0;
  octet5 = get_or addr 15 0;
}

-- A character is its code. A digit of `%02x`, and the two of a byte.
abbrev pub hex_digit : ℕ → ℕ
hex_digit n = if ltb n 10 then 48 + n else 87 + n

abbrev pub hex_byte : ℕ → List ℕ
hex_byte n = hex_digit (n / 16) ∷ hex_digit (n % 16) ∷ []

unfoldable pub ether_addr_to_string : EtherAddr → List ℕ
ether_addr_to_string addr =
    hex_byte addr.octet0
    ++ (b':'
        ∷ (hex_byte addr.octet1
            ++ (b':'
                ∷ (hex_byte addr.octet2
                    ++ (b':'
                        ∷ (hex_byte addr.octet3
                            ++ (b':'
                                ∷ (hex_byte addr.octet4 ++ (b':' ∷ hex_byte addr.octet5)))))))))

-- `isxdigit`
abbrev pub is_xdigit : ℕ → Bool
is_xdigit c =
    (leb b'0' c && leb c b'9') || ((leb b'a' c && leb c b'f') || (leb b'A' c && leb c b'F'))

-- What `strtol` makes of a hexadecimal digit, and of two.
abbrev pub xdigit_value : ℕ → ℕ
xdigit_value c = if leb c b'9' then c - b'0' else if leb b'a' c then c - 87 else c - 55

abbrev pub byte_at : List ℕ → ℕ → ℕ
byte_at clean i =
    (16 * xdigit_value (get_or clean (i * 2) 0) + xdigit_value (get_or clean (i * 2 + 1) 0)) % 256

-- The loop that keeps the first `left` hexadecimal digits of a string.
unfoldable pub clean_mac : List ℕ → ℕ → List ℕ
clean_mac [] left = []
clean_mac (c ∷ str) zero = []
clean_mac (c ∷ str) (suc left) = elim (is_xdigit c) [
  | true ↦ c ∷ clean_mac str left
  | false ↦ clean_mac str (suc left)
]

-- `none` is the result -1. There is memory for the address.
unfoldable pub parse_mac_address : List ℕ → Option EtherAddr
parse_mac_address mac_str =
    let clean = clean_mac mac_str 12 in
    if not (length clean == 12)
    then none
    else some (record {
      octet0 = byte_at clean 0;
      octet1 = byte_at clean 1;
      octet2 = byte_at clean 2;
      octet3 = byte_at clean 3;
      octet4 = byte_at clean 4;
      octet5 = byte_at clean 5;
    })
