-- ===== src/Core/Addresses.antt =====
-- main/wifi/core.c: the IPv6 address of a node and back.
use esp_owl.Base.{
  ==_iff, Bool, all_below_lem, ap, bit_xor, length, refl, sym, ℕ, ◌<◌, ◌==◌, ◌∙◌, ◌≡◌,
}
use esp_owl.Ethernet.{EtherAddr, IsAddr}
use esp_owl.Core.{ether_addr_to_in6_addr, in6_addr_to_ether_addr}

abbrev flips_back : ℕ → Bool
flips_back x = bit_xor (bit_xor x 2) 2 == x

flip_flip : (x : ℕ) → x < 256 → bit_xor (bit_xor x 2) 2 ≡ x
flip_flip x h = (==_iff (bit_xor (bit_xor x 2) 2) x).0 (all_below_lem 256 flips_back refl x h)

-- The link-local IPv6 address made of an Ethernet address of six bytes has 16 bytes and gives the
-- Ethernet address back.
pub in6_addr_to_ether_addr-ether_addr_to_in6_addr :
    (a : EtherAddr)
    → IsAddr a
    → (in6_addr_to_ether_addr (ether_addr_to_in6_addr a) ≡ a)
      × (length (ether_addr_to_in6_addr a) ≡ 16)
unfolding in6_addr_to_ether_addr ether_addr_to_in6_addr
in6_addr_to_ether_addr-ether_addr_to_in6_addr a bytes =
    (λ i. record a { octet0 = flip_flip a.octet0 bytes.0 i }, refl)

-- Addresses of six bytes with the same IPv6 address are the same.
pub ether_addr_to_in6_addr-injective :
    (a b : EtherAddr)
    → IsAddr a
    → IsAddr b
    → ether_addr_to_in6_addr a ≡ ether_addr_to_in6_addr b
    → a ≡ b
ether_addr_to_in6_addr-injective a b bytes_a bytes_b e =
    sym (in6_addr_to_ether_addr-ether_addr_to_in6_addr a bytes_a).0
    ∙ ap in6_addr_to_ether_addr e
    ∙ (in6_addr_to_ether_addr-ether_addr_to_in6_addr b bytes_b).0
