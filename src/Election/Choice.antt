-- ===== src/Election/Choice.antt =====
-- What the loop of main/owl/election.c chooses, and what the run makes of it.
use mathlib.Core.Option.{some-injective}
use esp_owl.Base.{
  All, List, Option, [], arith, false, get_elem?, inl, inr, refl, some, subst, suc, true, ℕ, ◌&&◌,
  ◌∙◌, ◌∷◌, ◌≡◌, ◌⊎◌,
}
use esp_owl.Ethernet.{IsAddr}
use esp_owl.Election.{Candidate, ElectionState, best_of, consider, elect, is_better, is_eligible}
use esp_owl.Election.Order.{is_better_asym, is_better_irrefl, is_better_neg_trans}

-- The octets of every address are bytes.
abbrev pub HasAddr : Candidate → Type 0
HasAddr c = IsAddr c.election.self_addr

pub All-get_elem? {ℓ κ} :
    {A : Type ℓ} (P : A → Type κ) (xs : List A) (i : ℕ) {x : A}
    → All P xs
    → get_elem? xs i ≡ some x
    → P x
All-get_elem? P [] i h e = cc
All-get_elem? P (y ∷ xs) ℕ.zero {x = x} h e = subst P (some-injective y x e) h.0
All-get_elem? P (y ∷ xs) (suc i) h e = All-get_elem? P xs i h.1 e

module _ (state : ElectionState) where
  consider-cases :
      (master : Option ElectionState) (peer : Candidate)
      → (is_eligible state peer ≡ true)
          × (is_better peer.election (best_of state master) ≡ true)
          × (consider state master peer ≡ some peer.election)
        ⊎ ((is_eligible state peer && is_better peer.election (best_of state master)) ≡ false)
          × (consider state master peer ≡ master)
  unfolding consider
  consider-cases master peer = ground arith

  -- The loop ends with the start, or with an eligible peer of the list.
  pub elect-source :
      (master : Option ElectionState) (peers : List Candidate)
      → (elect state master peers ≡ master)
        ⊎ ((i : ℕ) × (c : Candidate) × (get_elem? peers i ≡ some c)
            × (is_eligible state c ≡ true)
            × (elect state master peers ≡ some c.election))
  unfolding elect
  elect-source master [] = inl refl
  elect-source master (peer ∷ peers) = elim (elect-source (consider state master peer) peers) [
    | inr (i, c, at, ok, e) ↦ inr (suc i, c, at, ok, e)
    | inl e ↦ elim (consider-cases master peer) [
      | inl (ok, better, f) ↦ inr (0, peer, refl, ok, e ∙ f)
      | inr (no_change, f) ↦ inl (e ∙ f)
    ]
  ]

module _ (state : ElectionState) where
  pub consider-IsAddr :
      (master : Option ElectionState) (peer : Candidate)
      → IsAddr (best_of state master).self_addr
      → HasAddr peer
      → IsAddr (best_of state (consider state master peer)).self_addr
  consider-IsAddr master peer hm hp = elim (consider-cases state master peer) [
    | inl (ok, better, f) ↦ rw f hp
    | inr (no_change, f) ↦ rw f hm
  ]

  consider_start :
      (master : Option ElectionState) (peer : Candidate)
      → IsAddr (best_of state master).self_addr
      → HasAddr peer
      → is_better (best_of state master) (best_of state (consider state master peer)) ≡ false
  consider_start master peer hm hp = elim (consider-cases state master peer) [
    | inl (ok, better, f) ↦ rw f (is_better_asym peer.election (best_of state master) hp hm better)
    | inr (no_change, f) ↦ rw f (is_better_irrefl (best_of state master) hm)
  ]

  consider_peer :
      (master : Option ElectionState) (peer : Candidate)
      → HasAddr peer
      → is_eligible state peer ≡ true
      → is_better peer.election (best_of state (consider state master peer)) ≡ false
  consider_peer master peer hp ok = elim (consider-cases state master peer) [
    | inl (same, better, f) ↦ rw f (is_better_irrefl peer.election hp)
    | inr (no_change, f) ↦ rw f (rw ok at no_change)
  ]

  -- The end of the loop is not beaten by its start.
  pub elect_start :
      (master : Option ElectionState) (peers : List Candidate)
      → IsAddr (best_of state master).self_addr
      → All HasAddr peers
      → (is_better (best_of state master) (best_of state (elect state master peers)) ≡ false)
        × IsAddr (best_of state (elect state master peers)).self_addr
  unfolding elect
  elect_start master [] hm hs = (is_better_irrefl (best_of state master) hm, hm)
  elect_start master (peer ∷ peers) hm hs =
      let next = consider state master peer in
      let hn : IsAddr (best_of state next).self_addr = consider-IsAddr master peer hm hs.0 in
      let (rest, he) = elect_start next peers hn hs.1 in
      (
        is_better_neg_trans (best_of state master) (best_of state next) _ hm hn he
            (consider_start master peer hm hs.0) rest,
        he,
      )

  -- Nor by any eligible peer of the list.
  pub elect_best :
      (master : Option ElectionState) (peers : List Candidate) (i : ℕ) (c : Candidate)
      → IsAddr (best_of state master).self_addr
      → All HasAddr peers
      → get_elem? peers i ≡ some c
      → is_eligible state c ≡ true
      → is_better c.election (best_of state (elect state master peers)) ≡ false
  unfolding elect
  elect_best master [] i c hm hs at ok = cc
  elect_best master (peer ∷ peers) ℕ.zero c hm hs at ok =
      let same : peer ≡ c = some-injective peer c at in
      let next = consider state master peer in
      let hn : IsAddr (best_of state next).self_addr = consider-IsAddr master peer hm hs.0 in
      let (rest, he) = elect_start next peers hn hs.1 in
      subst (λ p. is_better p.election (best_of state (elect state next peers)) ≡ false) same
        (is_better_neg_trans peer.election (best_of state next) _ hs.0 hn he
          (consider_peer master peer hs.0 (rw same ok)) rest)
  elect_best master (peer ∷ peers) (suc i) c hm hs at ok =
      elect_best (consider state master peer) peers i c (consider-IsAddr master peer hm hs.0) hs.1
        at ok
