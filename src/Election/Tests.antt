-- ===== src/Election/Tests.antt =====
-- The election of main/owl/election.c on small tables.
use mathlib.Core.List.Perm
use esp_owl.Base.{List, [], arith, refl, true, ℕ, ◌-◌, ◌^◌, ◌∷◌, ◌≡◌, ◌≢◌, ◌≤◌}
use esp_owl.Ethernet.{EtherAddr, compare_ether_addr}
use esp_owl.Election.{
  Candidate, ElectionState, adopt, awdl_election_compare_master, awdl_election_is_sync_master,
  awdl_election_reset_self, awdl_election_run, consider, elect, is_better, is_eligible,
  tree_max_height,
}
use esp_owl.Election.Run.{AsGood, height-run-le, run-best, run-run, run_height_wraps}
use esp_owl.Election.AnyOrder.{run-perm}

abbrev node : ℕ → EtherAddr
node n = record { octet0 = 2; octet1 = 0; octet2 = 0; octet3 = 0; octet4 = 0; octet5 = n }

-- A node of its own tree, with the given counter.
abbrev alone : ℕ → ℕ → ElectionState
alone n counter = record {
  master_addr = node n;
  sync_addr = node n;
  self_addr = node n;
  height = 0;
  master_metric = 60;
  self_metric = 60;
  master_counter = counter;
  self_counter = counter;
}

abbrev me : ElectionState
me = alone 1 0

abbrev peer : ℕ → ℕ → Candidate
peer n counter = record { is_valid = true; election = alone n counter }

abbrev table : List Candidate
table = peer 2 7 ∷ peer 3 9 ∷ []

abbrev far : Candidate
far = record { is_valid = true; election = record (alone 2 5) { height = 2 ^ 32 - 1 } }

-- Of two better peers the one with the higher counter is followed.
follows_highest :
    ((awdl_election_run me table).sync_addr ≡ node 3)
    × ((awdl_election_run me table).height ≡ 1)
    × ((awdl_election_run me table).master_counter ≡ 9)
unfolding awdl_election_run awdl_election_reset_self elect consider adopt is_eligible is_better
    awdl_election_is_sync_master awdl_election_compare_master compare_ether_addr
follows_highest = (refl, refl, refl)

-- A peer that is synchronised to us is not followed.
no_cycle :
    awdl_election_run me
      (record { is_valid = true; election = record (alone 2 9) { sync_addr = node 1 } } ∷ [])
    ≡ me
unfolding awdl_election_run awdl_election_reset_self elect consider adopt is_eligible is_better
    awdl_election_is_sync_master awdl_election_compare_master compare_ether_addr
no_cycle = refl

height-run-le_example : (awdl_election_run me table).height ≤ tree_max_height
height-run-le_example = height-run-le me table

run-best_example : AsGood (awdl_election_run me table) (alone 2 7)
run-best_example =
    run-best me table 0 (peer 2 7) (omega arith) (omega arith) refl (refl, omega arith, other)
  where
    other : node 2 ≢ node 1
    other = ground arith

run-run_example : awdl_election_run (awdl_election_run me table) table ≡ awdl_election_run me table
run-run_example = run-run me table

run-perm_example : awdl_election_run me table ≡ awdl_election_run me (peer 3 9 ∷ peer 2 7 ∷ [])
run-perm_example =
    run-perm me {ps = table} (omega arith) (omega arith) (omega arith)
      (Perm.swap (peer 3 9) (peer 2 7) [])

run_height_wraps_example :
    ((awdl_election_run me (far ∷ [])).height ≡ 0)
    × ((awdl_election_run me (far ∷ [])).sync_addr ≡ node 2)
run_height_wraps_example =
    run_height_wraps me far (omega arith) (omega arith) refl refl (omega arith) other
  where
    other : node 2 ≢ node 1
    other = ground arith
