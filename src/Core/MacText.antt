-- ===== src/Core/MacText.antt =====
-- main/wifi/core.c: an address as a text and back.
use esp_owl.Base.{
  Bool, List, [], all_below_lem, ap, arith, refl, some, suc, true, ℕ, ◌%◌, ◌&&◌, ◌*◌, ◌++◌, ◌+◌,
  ◌/◌, ◌<◌, ◌==◌, ◌∙◌, ◌∷◌, ◌≡◌,
}
use esp_owl.Ethernet.{EtherAddr, IsAddr}
use esp_owl.Core.{
  clean_mac, ether_addr_to_string, hex_byte, hex_digit, is_xdigit, parse_mac_address, xdigit_value,
}

abbrev digit_reads : ℕ → Bool
digit_reads d = is_xdigit (hex_digit d) && xdigit_value (hex_digit d) == d

digit_is_xdigit : (d : ℕ) → d < 16 → is_xdigit (hex_digit d) ≡ true
digit_is_xdigit d h = ground (arith, h, all_below_lem 16 digit_reads refl d h)

pub digit_value : (d : ℕ) → d < 16 → xdigit_value (hex_digit d) ≡ d
digit_value d h = ground (arith, h)

clean_digit :
    (d left : ℕ) (str : List ℕ)
    → d < 16
    → clean_mac (hex_digit d ∷ str) (suc left) ≡ hex_digit d ∷ clean_mac str left
unfolding clean_mac
clean_digit d left str h = rw (clean_mac, digit_is_xdigit d h) refl

clean_byte :
    (n left : ℕ) (str : List ℕ)
    → n < 256
    → clean_mac (hex_byte n ++ str) (suc (suc left)) ≡ hex_byte n ++ clean_mac str left
clean_byte n left str h =
    clean_digit (n / 16) (suc left) (hex_digit (n % 16) ∷ str) (omega (arith, h))
    ∙ ap (λ (r : List ℕ). hex_digit (n / 16) ∷ r) (clean_digit (n % 16) left str (omega arith))

byte_value :
    (n : ℕ)
    → n < 256
    → (16 * xdigit_value (hex_digit (n / 16)) + xdigit_value (hex_digit (n % 16))) % 256 ≡ n
byte_value n h =
    rw (digit_value (n / 16) (omega (arith, h)), digit_value (n % 16) (omega arith))
      (omega (arith, h))

-- The separator is skipped.
clean_colon :
    (left : ℕ) (str : List ℕ) → clean_mac (b':' ∷ str) (suc left) ≡ clean_mac str (suc left)
unfolding clean_mac
clean_colon left str = refl

clean_next :
    (n left : ℕ) (str : List ℕ)
    → n < 256
    → clean_mac (hex_byte n ++ (b':' ∷ str)) (suc (suc (suc left)))
      ≡ hex_byte n ++ clean_mac str (suc left)
clean_next n left str h =
    clean_byte n (suc left) (b':' ∷ str) h
    ∙ ap (λ (r : List ℕ). hex_byte n ++ r) (clean_colon left str)

clean_text :
    (a : EtherAddr)
    → IsAddr a
    → clean_mac (ether_addr_to_string a) 12
      ≡ hex_byte a.octet0
        ++ (hex_byte a.octet1
            ++ (hex_byte a.octet2
                ++ (hex_byte a.octet3 ++ (hex_byte a.octet4 ++ (hex_byte a.octet5 ++ [])))))
unfolding ether_addr_to_string clean_mac
clean_text a (b0, (b1, (b2, (b3, (b4, (b5, _)))))) =
    let t5 = hex_byte a.octet5 in
    let t4 = hex_byte a.octet4 ++ (b':' ∷ t5) in
    let t3 = hex_byte a.octet3 ++ (b':' ∷ t4) in
    let t2 = hex_byte a.octet2 ++ (b':' ∷ t3) in
    let t1 = hex_byte a.octet1 ++ (b':' ∷ t2) in
    let c4 =
      clean_next a.octet4 1 t5 b4
      ∙ ap (λ (r : List ℕ). hex_byte a.octet4 ++ r) (clean_byte a.octet5 0 [] b5) in
    let c3 = clean_next a.octet3 3 t4 b3 ∙ ap (λ (r : List ℕ). hex_byte a.octet3 ++ r) c4 in
    let c2 = clean_next a.octet2 5 t3 b2 ∙ ap (λ (r : List ℕ). hex_byte a.octet2 ++ r) c3 in
    let c1 = clean_next a.octet1 7 t2 b1 ∙ ap (λ (r : List ℕ). hex_byte a.octet1 ++ r) c2 in
    clean_next a.octet0 9 t1 b0 ∙ ap (λ (r : List ℕ). hex_byte a.octet0 ++ r) c1

-- The text of an address of six bytes is parsed to the address.
pub parse_mac_address-ether_addr_to_string :
    (a : EtherAddr) → IsAddr a → parse_mac_address (ether_addr_to_string a) ≡ some a
unfolding parse_mac_address ether_addr_to_string
parse_mac_address-ether_addr_to_string a bytes =
    let (b0, (b1, (b2, (b3, (b4, (b5, _)))))) = bytes in
    rw (parse_mac_address, clean_text a bytes)
      (λ i. some (record {
        octet0 = byte_value a.octet0 b0 i;
        octet1 = byte_value a.octet1 b1 i;
        octet2 = byte_value a.octet2 b2 i;
        octet3 = byte_value a.octet3 b3 i;
        octet4 = byte_value a.octet4 b4 i;
        octet5 = byte_value a.octet5 b5 i;
      }))
