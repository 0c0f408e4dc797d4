-- ===== src/Election/Order.antt =====
-- The order by which main/owl/election.c ranks masters: counter, metric, nearness, address.
use esp_owl.Base.{Bool, arith, be_value, compare, false, refl, true, ℕ, ◌<◌, ◌↔◌, ◌≡◌, ◌≢◌, ◌⊎◌}
use esp_owl.Ethernet.{EtherAddr, IsAddr, compare_ether_addr, octets}
use esp_owl.Election.{ElectionState, awdl_election_compare_master, is_better}

-- An address as the number that its octets spell.
abbrev pub addr_value : EtherAddr → ℕ
addr_value a = be_value (octets a)

-- memcmp compares those numbers.
compare-addr_value :
    (a b : EtherAddr)
    → IsAddr a
    → IsAddr b
    → compare_ether_addr a b ≡ compare (addr_value a) (addr_value b)
unfolding compare_ether_addr
compare-addr_value a b ha hb = ground arith

-- `p` is the better master of the two.
abbrev pub Outranks : ElectionState → ElectionState → Type 0
Outranks p m =
    (m.master_counter < p.master_counter)
    ⊎ (m.master_counter ≡ p.master_counter)
      × ((m.master_metric < p.master_metric)
          ⊎ (m.master_metric ≡ p.master_metric)
            × ((p.height < m.height)
                ⊎ (p.height ≡ m.height) × (addr_value m.self_addr < addr_value p.self_addr)))

pub is_better_iff :
    (p m : ElectionState)
    → IsAddr p.self_addr
    → IsAddr m.self_addr
    → (is_better p m ≡ true) ↔ Outranks p m
unfolding is_better awdl_election_compare_master
is_better_iff p m hp hm = let e = compare-addr_value p.self_addr m.self_addr hp hm in ground arith

false_of_not : (b : Bool) → (b ≡ true → ⊥) → b ≡ false
false_of_not true h = absurd (h refl)
false_of_not false h = refl

true_of_not : (b : Bool) → (b ≡ false → ⊥) → b ≡ true
true_of_not true h = refl
true_of_not false h = absurd (h refl)

pub not_true : {b : Bool} → b ≡ false → b ≡ true → ⊥
not_true e f = cc

pub is_better_irrefl : (p : ElectionState) → IsAddr p.self_addr → is_better p p ≡ false
is_better_irrefl p hp =
    false_of_not (is_better p p) (λ k. let b = (is_better_iff p p hp hp).0 k in omega arith)

module _ (p q : ElectionState) (hp : IsAddr p.self_addr) (hq : IsAddr q.self_addr) where
  pub is_better_asym : is_better p q ≡ true → is_better q p ≡ false
  is_better_asym h = false_of_not (is_better q p) (λ k.
      let a = (is_better_iff p q hp hq).0 h in let b = (is_better_iff q p hq hp).0 k in omega arith)

  -- Of two nodes with different addresses one is the better master.
  pub is_better_total :
      addr_value p.self_addr ≢ addr_value q.self_addr → is_better p q ≡ false → is_better q p ≡ true
  is_better_total ne h =
      (is_better_iff q p hq hp).1 (decide_rank (λ k. not_true h ((is_better_iff p q hp hq).1 k)))
    where
      decide_rank : (Outranks p q → ⊥) → Outranks q p
      decide_rank no_rank = grind arith

module _ (p q m : ElectionState) (hp : IsAddr p.self_addr) (hq : IsAddr q.self_addr)
    (hm : IsAddr m.self_addr) where
  pub is_better_trans : is_better p q ≡ true → is_better q m ≡ true → is_better p m ≡ true
  is_better_trans h k =
      let a = (is_better_iff p q hp hq).0 h in
      let b = (is_better_iff q m hq hm).0 k in (is_better_iff p m hp hm).1 (grind arith)

  -- A master that is not worse than one that `m` does not beat is not beaten by `m` either.
  pub is_better_neg_trans : is_better p q ≡ false → is_better q m ≡ false → is_better p m ≡ false
  is_better_neg_trans h k = false_of_not (is_better p m) (λ t.
      let a = (is_better_iff p m hp hm).0 t in
      let no_pq = λ (r : Outranks p q). not_true h ((is_better_iff p q hp hq).1 r) in
      let no_qm = λ (r : Outranks q m). not_true k ((is_better_iff q m hq hm).1 r) in grind arith)
