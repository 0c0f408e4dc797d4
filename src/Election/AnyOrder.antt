-- ===== src/Election/AnyOrder.antt =====
-- main/owl/election.c does not depend on the order in which the table lists the peers.

use mathlib.Core.List.{Perm, Permᴰ}
use mathlib.Core.Logic.{∥∥₁_elim}
use esp_owl.Base.{
  All, List, Option, [], ap, ap₂, arith, none, refl, subst, subst₂, sym, ◌∙◌, ◌∷◌, ◌≡◌, ◌≢◌,
}
use esp_owl.Ethernet.{IsAddr}
use esp_owl.Election.{
  Candidate, ElectionState, adopt, awdl_election_reset_self, awdl_election_run, best_of, consider,
  elect,
}
use esp_owl.Election.Order.{addr_value, is_better_asym, is_better_total, is_better_trans}
use esp_owl.Election.Choice.{HasAddr, consider-IsAddr}

-- Two peers that the loop meets one after the other may change places.
consider_comm :
    (state : ElectionState) (master : Option ElectionState) (p q : Candidate)
    → IsAddr (best_of state master).self_addr
    → HasAddr p
    → HasAddr q
    → addr_value p.election.self_addr ≢ addr_value q.election.self_addr
    → consider state (consider state master p) q ≡ consider state (consider state master q) p
unfolding consider
consider_comm state master p q hm hp hq ne =
    let m = best_of state master in
    let a = p.election in
    let b = q.election in
    ground (
      arith,
      is_better_asym a b hp hq,
      is_better_total a b hp hq ne,
      is_better_trans a b m hp hq hm,
      is_better_trans b a m hq hp hm,
    )

All-perm {ℓ κ} : {A : Type ℓ} (P : A → Type κ) {xs ys : List A} → Permᴰ xs ys → All P xs → All P ys
All-perm P Permᴰ.nil h = h
All-perm P (Permᴰ.cons e d) h = (subst P e h.0, All-perm P d h.1)
All-perm P (Permᴰ.swap e f) h = (subst P f h.1.0, (subst P e h.0, h.1.1))
All-perm P (Permᴰ.trans d f) h = All-perm P f (All-perm P d h)

abbrev pub Differ : Candidate → Candidate → Type 0
Differ p q = addr_value p.election.self_addr ≢ addr_value q.election.self_addr

-- No two peers of the table have the same address: it is the key of the table.
abbrev pub Distinct : List Candidate → Type 0
Distinct [] = Unit
Distinct (p ∷ ps) = All (Differ p) ps × Distinct ps

Distinct-perm : {ps qs : List Candidate} → Permᴰ ps qs → Distinct ps → Distinct qs
Distinct-perm Permᴰ.nil h = h
Distinct-perm (Permᴰ.cons {a = a} {l₂ = l} e d) h =
    (subst (λ p. All (Differ p) l) e (All-perm (Differ a) d h.0), Distinct-perm d h.1)
Distinct-perm (Permᴰ.swap {l = l} e f) h = (
  (subst₂ Differ f e (λ same. h.0.0 (sym same)), subst (λ p. All (Differ p) l) f h.1.0),
  (subst (λ p. All (Differ p) l) e h.0.1, h.1.1),
)
Distinct-perm (Permᴰ.trans d f) h = Distinct-perm f (Distinct-perm d h)

elect-perm :
    (state : ElectionState) (master : Option ElectionState) {ps qs : List Candidate}
    → Permᴰ ps qs
    → IsAddr (best_of state master).self_addr
    → All HasAddr ps
    → Distinct ps
    → elect state master ps ≡ elect state master qs
unfolding elect
elect-perm state master Permᴰ.nil hm hs hd = refl
elect-perm state master (Permᴰ.cons {a = a} {b = b} {l₂ = l} e d) hm hs hd =
    elect-perm state (consider state master a) d (consider-IsAddr state master a hm hs.0) hs.1 hd.1
    ∙ ap (λ p. elect state (consider state master p) l) e
elect-perm state master (Permᴰ.swap {a = a} {b = b} {l = l} e f) hm hs hd =
    ap (λ m. elect state m l) (consider_comm state master a b hm hs.0 hs.1.0 hd.0.0)
    ∙ ap₂ (λ p q. elect state (consider state (consider state master p) q) l) f e
elect-perm state master (Permᴰ.trans d f) hm hs hd =
    elect-perm state master d hm hs hd
    ∙ elect-perm state master f hm (All-perm HasAddr d hs) (Distinct-perm d hd)

ElectionState-set : IsSet ElectionState
ElectionState-set = hlevel

-- The outcome of the election is the same in whatever order the hash table lists the peers.
pub run-perm :
    (state : ElectionState) {ps qs : List Candidate}
    → IsAddr state.self_addr
    → All HasAddr ps
    → Distinct ps
    → Perm ps qs
    → awdl_election_run state ps ≡ awdl_election_run state qs
unfolding awdl_election_run awdl_election_reset_self
run-perm state self hs hd perm =
    ∥∥₁_elim perm (ElectionState-set _ _)
      (λ d. ap (adopt _) (elect-perm (awdl_election_reset_self state) none d self hs hd))
