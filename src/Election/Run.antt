-- ===== src/Election/Run.antt =====
-- `awdl_election_run` of main/owl/election.c: which master a node takes, and that the tree stays flat.
use mathlib.Core.Option.{some-injective}
use esp_owl.Base.{
  All, List, Option, [], ap, arith, get_elem?, inl, inr, none, refl, some, suc, sym, true, ℕ, ◌%◌,
  ◌+◌, ◌-◌, ◌<◌, ◌^◌, ◌↔◌, ◌∙◌, ◌∷◌, ◌≡◌, ◌≢◌, ◌≤◌, ◌⊎◌,
}
use esp_owl.Ethernet.{EtherAddr, IsAddr, compare_ether_addr}
use esp_owl.Election.{
  Candidate, ElectionState, adopt, awdl_election_is_sync_master, awdl_election_reset_self,
  awdl_election_run, best_of, elect, is_eligible, is_eq, tree_max_height,
}
use esp_owl.Election.Order.{Outranks, is_better_iff, not_true}
use esp_owl.Election.Choice.{All-get_elem?, HasAddr, elect-source, elect_best, elect_start}

compare-eq_iff : (a b : EtherAddr) → (is_eq (compare_ether_addr a b) ≡ true) ↔ (a ≡ b)
unfolding compare_ether_addr
compare-eq_iff a b = ground arith

-- The conditions on a peer: valid, near enough in 32-bit arithmetic, not synchronised to us.
abbrev pub MayLead : ElectionState → Candidate → Type 0
MayLead state c =
    (c.is_valid ≡ true)
    × ((c.election.height + 1) % 2 ^ 32 ≤ tree_max_height)
    × (c.election.sync_addr ≢ state.self_addr)

eligible_iff :
    (state : ElectionState) (c : Candidate)
    → (is_eligible (awdl_election_reset_self state) c ≡ true) ↔ MayLead state c
unfolding is_eligible awdl_election_reset_self awdl_election_is_sync_master
eligible_iff state c =
    let same = compare-eq_iff c.election.sync_addr state.self_addr in ground arith

-- The fields that a node takes over from the peer that it chose, and those of a node on its own.
pub record Follows (state : ElectionState) (m : ElectionState) (r : ElectionState) : Type 0 where
  pub master : r.master_addr ≡ m.master_addr
  pub sync : r.sync_addr ≡ m.self_addr
  pub metric : r.master_metric ≡ m.master_metric
  pub counter : r.master_counter ≡ m.master_counter
  pub height : r.height ≡ (m.height + 1) % 2 ^ 32
  pub self : r.self_addr ≡ state.self_addr
  pub self_metric : r.self_metric ≡ state.self_metric
  pub self_counter : r.self_counter ≡ state.self_counter

pub record Leads (state : ElectionState) (r : ElectionState) : Type 0 where
  pub master : r.master_addr ≡ state.self_addr
  pub sync : r.sync_addr ≡ state.self_addr
  pub metric : r.master_metric ≡ state.self_metric
  pub counter : r.master_counter ≡ state.self_counter
  pub height : r.height ≡ 0
  pub self : r.self_addr ≡ state.self_addr
  pub self_metric : r.self_metric ≡ state.self_metric
  pub self_counter : r.self_counter ≡ state.self_counter

adopt-Leads : (state : ElectionState) → Leads state (adopt (awdl_election_reset_self state) none)
unfolding adopt awdl_election_reset_self
adopt-Leads state = record {
  master = refl;
  sync = refl;
  metric = refl;
  counter = refl;
  height = refl;
  self = refl;
  self_metric = refl;
  self_counter = refl;
}

adopt-Follows :
    (state m : ElectionState) → Follows state m (adopt (awdl_election_reset_self state) (some m))
unfolding adopt awdl_election_reset_self
adopt-Follows state m = record {
  master = refl;
  sync = refl;
  metric = refl;
  counter = refl;
  height = refl;
  self = refl;
  self_metric = refl;
  self_counter = refl;
}

-- A run leaves a node as its own master at height 0, or it follows a peer of the table that may
-- lead it: it synchronises to that peer, takes over its master, metric and counter, and stands one
-- higher. What a node says of itself stays.
pub run-source :
    (state : ElectionState) (peers : List Candidate)
    → Leads state (awdl_election_run state peers)
      ⊎ ((i : ℕ) × (c : Candidate) × (get_elem? peers i ≡ some c)
          × MayLead state c
          × Follows state c.election (awdl_election_run state peers))
unfolding awdl_election_run
run-source state peers = elim (elect-source (awdl_election_reset_self state) none peers) [
  | inl e ↦ inl (rw e (adopt-Leads state))
  | inr (i, c, at, ok, e) ↦
      inr (i, c, at, (eligible_iff state c).0 ok, rw e (adopt-Follows state c.election))
]

-- The tree that a node sees never grows past its limit, whatever the peers announce.
pub height-run-le :
    (state : ElectionState) (peers : List Candidate)
    → (awdl_election_run state peers).height ≤ tree_max_height
height-run-le state peers = elim (run-source state peers) [
  | inl alone ↦ omega (arith, alone.height)
  | inr (i, c, at, may, follows) ↦ omega (arith, follows.height, may)
]

-- `r` is at least as good a master as `c`: a higher counter, else a higher metric, else near.
abbrev pub AsGood : ElectionState → ElectionState → Type 0
AsGood r c =
    (c.master_counter < r.master_counter)
    ⊎ (c.master_counter ≡ r.master_counter)
      × ((c.master_metric < r.master_metric)
          ⊎ (c.master_metric ≡ r.master_metric) × (r.height ≤ c.height + 1))

adopt-AsGood :
    (state : ElectionState) (m : Option ElectionState) (c : ElectionState)
    → ¬ Outranks c (best_of (awdl_election_reset_self state) m)
    → AsGood (adopt (awdl_election_reset_self state) m) c
unfolding adopt awdl_election_reset_self
adopt-AsGood state none c h = grind arith
adopt-AsGood state (some m) c h = grind arith

-- No peer that may lead a node offers a better master than the one that the run has chosen.
pub run-best :
    (state : ElectionState) (peers : List Candidate) (i : ℕ) (c : Candidate)
    → IsAddr state.self_addr
    → All HasAddr peers
    → get_elem? peers i ≡ some c
    → MayLead state c
    → AsGood (awdl_election_run state peers) c.election
unfolding awdl_election_run awdl_election_reset_self
run-best state peers i c self addrs at may =
    let start = awdl_election_reset_self state in
    let chosen = elect start none peers in
    let best = elect_best start none peers i c self addrs at ((eligible_iff state c).1 may) in
    adopt-AsGood state chosen c.election (λ r. not_true best (
      (is_better_iff c.election (best_of start chosen) (All-get_elem? HasAddr peers i addrs at)
          (elect_start start none peers self addrs).1).1
        r))

reset-adopt :
    (state : ElectionState) (m : Option ElectionState)
    → awdl_election_reset_self (adopt (awdl_election_reset_self state) m)
      ≡ awdl_election_reset_self state
unfolding adopt awdl_election_reset_self
reset-adopt state none = refl
reset-adopt state (some m) = refl

-- Running the election again on the same table changes nothing.
pub run-run :
    (state : ElectionState) (peers : List Candidate)
    → awdl_election_run (awdl_election_run state peers) peers ≡ awdl_election_run state peers
unfolding awdl_election_run
run-run state peers =
    let start = awdl_election_reset_self state in
    ap (λ s. adopt s (elect s none peers)) (reset-adopt state (elect start none peers))

-- The height is a 32-bit sum, so a valid peer that announces the greatest height, a higher counter
-- than ours and another node that it synchronises to passes the limit: the node follows it
-- and holds itself for the top, at height 0.
pub run_height_wraps :
    (state : ElectionState) (c : Candidate)
    → IsAddr state.self_addr
    → HasAddr c
    → c.is_valid ≡ true
    → c.election.height ≡ 2 ^ 32 - 1
    → state.self_counter < c.election.master_counter
    → c.election.sync_addr ≢ state.self_addr
    → ((awdl_election_run state (c ∷ [])).height ≡ 0)
      × ((awdl_election_run state (c ∷ [])).sync_addr ≡ c.election.self_addr)
run_height_wraps state c self addr valid top counter other =
    let best =
      run-best state (c ∷ []) 0 c self (addr, tt) refl (valid, rw top (omega arith), other) in
    elim (run-source state (c ∷ [])) [
      | inl alone ↦ absurd (omega (arith, best, alone.counter))
      | inr (ℕ.zero, d, at, may, follows) ↦
          let same : c ≡ d = some-injective c d at in
          (
            omega (arith, follows.height, ap (λ p. p.election.height) same),
            follows.sync ∙ ap (λ p. p.election.self_addr) (sym same),
          )
      | inr (suc i, d, at, may, follows) ↦ cc
    ]
