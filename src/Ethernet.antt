-- ===== src/Ethernet.antt =====
-- `struct ether_addr` of main/owl/ethernet.h, and memcmp on it (main/owl/election.c).
use esp_owl.Base.{All, IsByte, List, Ordering, [], get_or, memcmp, ℕ, ◌∷◌}

-- The six octets, in memory order.
pub record EtherAddr : Type 0 where
  pub octet0 : ℕ
  pub octet1 : ℕ
  pub octet2 : ℕ
  pub octet3 : ℕ
  pub octet4 : ℕ
  pub octet5 : ℕ

abbrev pub octets : EtherAddr → List ℕ
octets a = a.octet0 ∷ a.octet1 ∷ a.octet2 ∷ a.octet3 ∷ a.octet4 ∷ a.octet5 ∷ []

-- The address that stands at the head of a byte string.
abbrev pub ether_addr_of : List ℕ → EtherAddr
ether_addr_of bs = record {
  octet0 = get_or bs 0 0;
  octet1 = get_or bs 1 0;
  octet2 = get_or bs 2 0;
  octet3 = get_or bs 3 0;
  octet4 = get_or bs 4 0;
  octet5 = get_or bs 5 0;
}

abbrev pub ether_addr_len : ℕ
ether_addr_len = 6

abbrev pub IsAddr : EtherAddr → Type 0
IsAddr a = All IsByte (octets a)

-- `memcmp(a, b, sizeof(struct ether_addr))`, by its sign
unfoldable pub compare_ether_addr : EtherAddr → EtherAddr → Ordering
compare_ether_addr a b = memcmp (octets a) (octets b)
