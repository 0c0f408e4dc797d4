-- ===== src/Peers/Table/Keys.antt =====
-- The addresses as keys of the map of main/owl/hashmap.c: `memcmp` on their six bytes.
use esp_owl.Base.{Bool, Bool-cases, arith, false, inl, inr, true, ℕ, ◌&&◌, ◌==◌, ◌≡◌, ◌≢◌}
use esp_owl.Ethernet.{EtherAddr}
use esp_owl.HashMap.{Keys}

abbrev pub same : EtherAddr → EtherAddr → Bool
same a b =
    (a.octet0 == b.octet0)
    && ((a.octet1 == b.octet1)
        && ((a.octet2 == b.octet2)
            && ((a.octet3 == b.octet3) && ((a.octet4 == b.octet4) && (a.octet5 == b.octet5)))))

pub same_refl : (a : EtherAddr) → same a a ≡ true
same_refl a = ground arith

six :
    (a b c d e f g h k l m n : ℕ)
    → ((a == b) && ((c == d) && ((e == f) && ((g == h) && ((k == l) && (m == n)))))) ≡ true
    → (a ≡ b) × (c ≡ d) × (e ≡ f) × (g ≡ h) × (k ≡ l) × (m ≡ n)
six a b c d e f g h k l m n t = ground (arith, t)

pub same-eq : (a b : EtherAddr) → same a b ≡ true → a ≡ b
same-eq a b h =
    let (e0, e1, e2, e3, e4, e5) =
      six a.octet0 b.octet0 a.octet1 b.octet1 a.octet2 b.octet2 a.octet3 b.octet3 a.octet4 b.octet4
        a.octet5 b.octet5 h in
    λ i. record {
      octet0 = e0 i;
      octet1 = e1 i;
      octet2 = e2 i;
      octet3 = e3 i;
      octet4 = e4 i;
      octet5 = e5 i;
    }

pub same_apart : (a b : EtherAddr) → a ≢ b → same a b ≡ false
same_apart a b apart = elim (Bool-cases (same a b)) [
  | inl h ↦ elim (apart (same-eq a b h)) [ ]
  | inr h ↦ h
]

-- `hash` is the hash function, main/owl/siphash24.c.
abbrev pub address_keys : (EtherAddr → ℕ) → Keys
address_keys hash = record {
  Key = EtherAddr;
  hash = hash;
  same = same;
  same_refl = same_refl;
  same-eq = same-eq;
}
