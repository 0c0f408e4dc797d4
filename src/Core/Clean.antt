-- ===== src/Core/Clean.antt =====
-- main/wifi/core.c: the timer that removes the peers that have not been heard for a while, and then
-- runs the election (main/owl/election.c) among those that are left.
use esp_owl.Base.{
  List, Option-cases, [], ap, arith, false, get_elem?, inl, inr, none, refl, some, subst, suc, sym,
  zero, ℕ, ◌+◌, ◌-◌, ◌<◌, ◌^◌, ◌↔◌, ◌∙◌, ◌∷◌, ◌≡◌, ◌≤◌, ◌⊎◌,
}
use esp_owl.Sync.{sub64}
use esp_owl.HashMap.{Elements, HashMap, Keys, free, hashmap_get, used}
use esp_owl.HashMap.Valid.{IsValid}
use esp_owl.Peers.{Peer}
use esp_owl.Peers.Table.Clean.{awdl_peers_remove, awdl_peers_remove_lem}
use esp_owl.HashMap.Probe.{Element-cases}
use esp_owl.HashMap.Lookup.{lookup_at}
use esp_owl.Election.Run.{Follows, Leads, run-source}
use esp_owl.Election.{Candidate, ElectionState, awdl_election_run}
use mathlib.Core.Option.{none-ne-some, some-injective}

-- The peers as the iterator of the election meets them, from the index `i` on.
unfoldable pub candidates : {K : Type 0} → Elements K Peer → ℕ → ℕ → List Candidate
candidates elements zero i = []
candidates elements (suc n) i = elim (elements i) [
  | free ↦ candidates elements n (i + 1)
  | used key peer ↦
      record { is_valid = peer.is_valid; election = peer.election } ∷ candidates elements n (i + 1)
]

-- The table, the election, and the time to which the timer is set.
unfoldable pub awdl_clean_peers :
    (C : Keys)
    → ℕ
    → ℕ
    → ℕ
    → ElectionState
    → HashMap C.Key Peer
    → HashMap C.Key Peer × ElectionState × ℕ
awdl_clean_peers C now timeout clean_interval election peers =
    let cutoff_time = sub64 now timeout in
    let left = awdl_peers_remove C peers cutoff_time in
    (left, awdl_election_run election (candidates left.elements left.table_size 0), clean_interval)

abbrev candidate_of : Peer → Candidate
candidate_of p = record { is_valid = p.is_valid; election = p.election }

uncons :
    (x : Candidate) (xs : List Candidate) (j : ℕ) (c : Candidate)
    → get_elem? (x ∷ xs) j ≡ some c
    → (x ≡ c) ⊎ ((k : ℕ) × (get_elem? xs k ≡ some c))
uncons x xs zero c at = inl (some-injective x c at)
uncons x xs (suc j) c at = inr (j, at)

candidates-source :
    {K : Type 0} (f : Elements K Peer) (n i j to : ℕ) (c : Candidate)
    → i + n ≡ to
    → get_elem? (candidates f n i) j ≡ some c
    → (x : ℕ) × (k : K) × (p : Peer) × (x < to) × (f x ≡ used k p) × (candidate_of p ≡ c)
unfolding candidates
candidates-source f zero i j to c e at = absurd (none-ne-some c at)
candidates-source f (suc n) i j to c e at = elim (Element-cases (f i)) [
  | inl here ↦
      let rest : candidates f (suc n) i ≡ candidates f n (i + 1) = rw (candidates, here) refl in
      candidates-source f n (i + 1) j to c (omega (arith, e))
        (sym (ap (λ (xs : List Candidate). get_elem? xs j) rest) ∙ at)
  | inr (k, p, here) ↦
      let rest : candidates f (suc n) i ≡ candidate_of p ∷ candidates f n (i + 1) =
        rw (candidates, here) refl in
      elim (uncons (candidate_of p) (candidates f n (i + 1)) j c
        (sym (ap (λ (xs : List Candidate). get_elem? xs j) rest) ∙ at)) [
          | inl same ↦ (i, k, p, omega (arith, e), here, same)
          | inr (l, later) ↦ candidates-source f n (i + 1) l to c (omega (arith, e)) later
        ]
]

-- When the clock is past the time-out, cleaning up leaves exactly the peers that were heard within
-- the time-out before.
pub clean_peers_lem :
    (C : Keys) (now timeout interval : ℕ) (election : ElectionState) (peers : HashMap C.Key Peer)
    (b : C.Key) (p : Peer)
    → IsValid C peers
    → now < 2 ^ 64
    → timeout ≤ now
    → let (left, elected, time) = awdl_clean_peers C now timeout interval election peers in
      IsValid C left
      × (((hashmap_get C left b false).1 ≡ some p)
          ↔ (((hashmap_get C peers b false).1 ≡ some p) × (now ≤ p.last_update + timeout)))
unfolding awdl_clean_peers
clean_peers_lem C now timeout interval election peers b p ok clock past =
    let cutoff : sub64 now timeout ≡ now - timeout = omega (arith, clock, past) in
    let (valid, exact) = awdl_peers_remove_lem C peers (sub64 now timeout) b p ok in
    (
      valid,
      (
        λ h. let (had, recent) = exact.0 h in (had, omega (arith, recent, cutoff)),
        λ h. exact.1 (h.0, omega (arith, h.1, cutoff, past)),
      ),
    )

-- Before the clock has reached the time-out, every peer that was heard is removed.
pub clean_peers-early :
    (C : Keys) (now timeout interval : ℕ) (election : ElectionState) (peers : HashMap C.Key Peer)
    (b : C.Key) (p : Peer)
    → IsValid C peers
    → now < timeout
    → timeout ≤ 2 ^ 63
    → (hashmap_get C peers b false).1 ≡ some p
    → p.last_update ≤ now
    → (hashmap_get C (awdl_clean_peers C now timeout interval election peers).0 b false).1 ≡ none
unfolding awdl_clean_peers
clean_peers-early C now timeout interval election peers b p ok early small had heard =
    let left = awdl_peers_remove C peers (sub64 now timeout) in
    let cutoff : sub64 now timeout ≡ now + 2 ^ 64 - timeout = omega (arith, early, small) in
    elim (Option-cases (hashmap_get C left b false).1) [
      | inl gone ↦ gone
      | inr (q, still) ↦
          let (had_q, recent) =
            (awdl_peers_remove_lem C peers (sub64 now timeout) b q ok).1.0 still in
          let same = ap (λ (x : Peer). x.last_update) (some-injective p q (sym had ∙ had_q)) in
          absurd (omega (arith, early, small, heard, cutoff, recent, same))
    ]

-- After cleaning up, with the clock past the time-out, the node is its own master, or it follows a
-- peer that was heard within the time-out before.
pub clean_peers-elects :
    (C : Keys) (now timeout interval : ℕ) (election : ElectionState) (peers : HashMap C.Key Peer)
    → IsValid C peers
    → now < 2 ^ 64
    → timeout ≤ now
    → let (left, elected, time) = awdl_clean_peers C now timeout interval election peers in
      Leads election elected
      ⊎ ((b : C.Key) × (p : Peer) × ((hashmap_get C peers b false).1 ≡ some p)
          × (now ≤ p.last_update + timeout)
          × Follows election p.election elected)
unfolding awdl_clean_peers
clean_peers-elects C now timeout interval election peers ok clock past =
    let left = awdl_peers_remove C peers (sub64 now timeout) in
    let n = left.table_size in
    let cutoff : sub64 now timeout ≡ now - timeout = omega (arith, clock, past) in
    elim (run-source election (candidates left.elements n 0)) [
      | inl leads ↦ inl leads
      | inr (j, c, at, may, follows) ↦
          let (x, k, p, bound, here, same) =
            candidates-source left.elements n 0 j n c (omega arith) at in
          let (valid, exact) = awdl_peers_remove_lem C peers (sub64 now timeout) k p ok in
          let (had, recent) =
            exact.0 (lookup_at C left k k x p (valid.found x k p bound here) here) in
          inr (
            k,
            p,
            had,
            omega (arith, recent, cutoff),
            subst
                (λ (m : Candidate).
                  Follows election m.election
                    (awdl_election_run election (candidates left.elements n 0)))
                (sym same) follows,
          )
    ]
