-- ===== src/Election.antt =====
-- main/owl/election.c: which node a node synchronises to.
-- A node's view of the peers is the list of `struct awdl_peer` in the order of the iterator, of which the
-- election reads the validity and the election state.
pub mod Order
pub mod Choice
pub mod Run
pub mod AnyOrder
mod Tests
use esp_owl.Base.{
  Bool, List, Option, Ordering, [], compare, false, if◌then◌else◌, ltb, none, not, some, true, ℕ,
  ◌%◌, ◌&&◌, ◌+◌, ◌==◌, ◌^◌, ◌∷◌,
}
use esp_owl.Ethernet.{EtherAddr, compare_ether_addr}

abbrev pub tree_max_height : ℕ
tree_max_height = 10

abbrev pub metric_init : ℕ
metric_init = 60

abbrev pub counter_init : ℕ
counter_init = 0

-- `struct awdl_election_state`; the numbers are `uint32_t`.
pub record ElectionState : Type 0 where
  pub master_addr : EtherAddr
  pub sync_addr : EtherAddr
  pub self_addr : EtherAddr
  pub height : ℕ
  pub master_metric : ℕ
  pub self_metric : ℕ
  pub master_counter : ℕ
  pub self_counter : ℕ

abbrev pub is_eq : Ordering → Bool
is_eq Ordering.eq = true
is_eq Ordering.lt = false
is_eq Ordering.gt = false

abbrev pub is_gt : Ordering → Bool
is_gt Ordering.gt = true
is_gt Ordering.lt = false
is_gt Ordering.eq = false

unfoldable pub awdl_election_is_sync_master : ElectionState → EtherAddr → Bool
awdl_election_is_sync_master state addr = is_eq (compare_ether_addr state.sync_addr addr)

awdl_election_reset_metric : ElectionState → ElectionState
awdl_election_reset_metric state = record state {
  self_counter = counter_init;
  self_metric = metric_init;
}

pub awdl_election_reset_self : ElectionState → ElectionState
awdl_election_reset_self state = record state {
  height = 0;
  master_addr = state.self_addr;
  sync_addr = state.self_addr;
  master_metric = state.self_metric;
  master_counter = state.self_counter;
}

-- All fields are set, whatever they were.
unfoldable pub awdl_election_state_init : ElectionState → EtherAddr → ElectionState
unfolding awdl_election_reset_metric awdl_election_reset_self
awdl_election_state_init state self = awdl_election_reset_self (
    awdl_election_reset_metric
      (record state { master_addr = self; sync_addr = self; self_addr = self }))

-- The counters first, then the metrics. `compare` of the library is that of the source.
awdl_election_compare_master : ElectionState → ElectionState → Ordering
awdl_election_compare_master a b = elim (compare a.master_counter b.master_counter) [
  | Ordering.lt ↦ Ordering.lt
  | Ordering.eq ↦ compare a.master_metric b.master_metric
  | Ordering.gt ↦ Ordering.gt
]

-- What the election reads of a `struct awdl_peer`.
pub record Candidate : Type 0 where
  pub is_valid : Bool
  pub election : ElectionState

-- The checks of a peer on its own: invalid, too far from the top, or synchronised to us. The sum
-- is a `uint32_t`.
pub is_eligible : ElectionState → Candidate → Bool
is_eligible state peer =
    peer.is_valid
    && (not (ltb tree_max_height ((peer.election.height + 1) % 2 ^ 32))
        && not (awdl_election_is_sync_master peer.election state.self_addr))

-- The comparison with the best so far.
pub is_better : ElectionState → ElectionState → Bool
is_better peer master = elim (awdl_election_compare_master peer master) [
  | Ordering.lt ↦ false
  | Ordering.gt ↦ true
  | Ordering.eq ↦
      if ltb master.height peer.height
      then false
      else if peer.height == master.height
      then is_gt (compare_ether_addr peer.self_addr master.self_addr)
      else true
]

-- The loop. `master_state` points to our own state until a peer is accepted, hence the option.
abbrev pub best_of : ElectionState → Option ElectionState → ElectionState
best_of state none = state
best_of state (some master) = master

pub consider : ElectionState → Option ElectionState → Candidate → Option ElectionState
consider state master peer =
    if is_eligible state peer && is_better peer.election (best_of state master)
    then some peer.election
    else master

pub elect : ElectionState → Option ElectionState → List Candidate → Option ElectionState
unfolding consider
elect state master [] = master
elect state master (peer ∷ peers) = elect state (consider state master peer) peers

pub adopt : ElectionState → Option ElectionState → ElectionState
adopt state none = state
adopt state (some master) = record state {
  master_addr = master.master_addr;
  sync_addr = master.self_addr;
  master_metric = master.master_metric;
  master_counter = master.master_counter;
  height = (master.height + 1) % 2 ^ 32;
}

-- The rest of the function writes the new tree to the log.
pub awdl_election_run : ElectionState → List Candidate → ElectionState
awdl_election_run state peers =
    let start = awdl_election_reset_self state in adopt start (elect start none peers)
