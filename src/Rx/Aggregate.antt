-- ===== src/Rx/Aggregate.antt =====
-- main/owl/rx.c: the loop over the parts of an aggregate ends within as many rounds as the frame has
-- bytes.
mod Tests
use esp_owl.Base.{
  Bool, Bool-cases, List, Option, arith, false, if◌then◌else◌, inl, inr, ltb, none, refl, some, suc,
  sym, true, zero, ℕ, ◌+◌, ◌<◌, ◌≡◌, ◌≤◌,
}
use esp_owl.Base.Int.{ltb_ℤ, pos, ℤ}
use esp_owl.Wire.{Buf, buf_data, buf_len, buf_strip, checked, read_be16, read_ether_addr}
use esp_owl.Wire.Bytes.{checked_len}
use esp_owl.Peers.Table.{PeerMap}
use esp_owl.Rx.{finish, Outcome, Statement, following, next, return, return_if, rx_too_short, try}
use esp_owl.Rx.Action.{RxState}
use esp_owl.Rx.Data.{
  LlcHdr, awdl_rx_data, awdl_rx_data_amsdu, padding, rx_part, strip_checked, subframe,
}

abbrev AtNext : {S A : Type 0} → (S → Type 0) → Outcome A × S → Type 0
AtNext Q (next a, s) = Q s
AtNext Q (return code, s) = Unit

-- The state has Q when the statement goes on.
record GoesOn {S A : Type 0} (Q : S → Type 0) (r : Outcome A × S) : Type 0 where
  at : AtNext Q r

module _ {S : Type 0} where
  after_try :
      {A B : Type 0} (Q : S → Type 0) (o : Option A) (f : A → Statement S B) (s : S)
      → ((a : A) → o ≡ some a → GoesOn Q (f a s))
      → GoesOn Q (following (try o s) f)
  after_try Q none f s later = record { at = tt }
  after_try Q (some a) f s later = later a refl

  after_return_if :
      {B : Type 0} (Q : S → Type 0) (stop : Bool) (code : ℤ) (f : Bool → Statement S B) (s : S)
      → GoesOn Q (f false s)
      → GoesOn Q (following (return_if stop code s) f)
  after_return_if Q true code f s later = record { at = tt }
  after_return_if Q false code f s later = later

  after :
      {A B : Type 0} (P Q : S → Type 0) (r : Outcome A × S) (f : A → Statement S B)
      → GoesOn P r
      → ((a : A) (s : S) → P s → GoesOn Q (f a s))
      → GoesOn Q (following r f)
  after P Q (next a, s) f first later = later a s first.at
  after P Q (return code, s) f first later = record { at = tt }

  weaken :
      {A : Type 0} (P Q : S → Type 0) (r : Outcome A × S)
      → GoesOn P r
      → ((s : S) → P s → Q s)
      → GoesOn Q r
  weaken P Q (next a, s) h le = record { at = le s h.at }
  weaken P Q (return code, s) h le = record { at = tt }

  same_end :
      {A B : Type 0} (r : Outcome A × S) (f g : Statement S B)
      → GoesOn (λ s. f s ≡ g s) r
      → following r (λ _. f) ≡ following r (λ _. g)
  same_end (next a, s) f g h = h.at
  same_end (return code, s) f g h = refl

module _ (M : PeerMap) (fresh : List ℕ) (garbage : LlcHdr) where
  strip_shortens :
      (n : ℕ) (s : RxState M.Table)
      → GoesOn (λ s'. buf_len s'.frame + n ≡ buf_len s.frame) (strip_checked M fresh garbage n s)
  strip_shortens n s =
      after_try (λ s'. buf_len s'.frame + n ≡ buf_len s.frame) (checked (buf_strip s.frame (pos n)))
        _ s λ rest e. record { at = checked_len s.frame rest n e }

  subframe_shortens :
      (s : RxState M.Table)
      → GoesOn (λ s'. buf_len s'.frame < buf_len s.frame) (subframe M fresh garbage s)
  unfolding subframe rx_part
  subframe_shortens s =
      let Q : RxState M.Table → Type 0 = λ s'. buf_len s'.frame < buf_len s.frame in
      after_try Q (read_ether_addr s.frame (pos 0)) _ s λ dst _.
        after_try Q (read_ether_addr s.frame (pos 6)) _ s λ src _.
          after_try Q (read_be16 s.frame (pos 12)) _ s λ len _.
            after (λ s'. buf_len s'.frame + 14 ≡ buf_len s.frame) Q
              (strip_checked M fresh garbage 14 s) _ (strip_shortens 14 s)
              λ _ s1 h1.
                let inner : Buf = record {
                  bytes = buf_data s1.frame;
                  off = 0;
                  len = len;
                  owned = false;
                } in
                let s2 : RxState M.Table = record s1 { frame = inner } in
                let done = finish (awdl_rx_data M fresh garbage src dst s2) in
                let s4 : RxState M.Table = record done.1 { frame = s1.frame } in
                after_return_if Q (ltb (buf_len s1.frame) len) rx_too_short _ s1 (
                  after_return_if Q (ltb_ℤ done.0 (pos 0)) done.0 _ s4 (
                    after (λ s'. buf_len s'.frame + len ≡ buf_len s1.frame) Q
                      (strip_checked M fresh garbage len s4) _ (strip_shortens len s4)
                      λ _ s5 h5. elim (Bool-cases (ltb 0 (buf_len s5.frame))) [
                        | inl e ↦
                            let pad = padding M fresh garbage len in
                            rw e (
                              weaken (λ s'. buf_len s'.frame + pad ≡ buf_len s5.frame) Q
                                (strip_checked M fresh garbage pad s5) (strip_shortens pad s5)
                                λ s6 h6. omega (arith, h1, h5, h6))
                        | inr e ↦ rw e (record { at = omega (arith, h1, h5) })
                      ]))

  -- Any two numbers of rounds that are not below the bytes of the frame give the same.
  pub amsdu_enough :
      (m n : ℕ) (s : RxState M.Table)
      → buf_len s.frame ≤ m
      → buf_len s.frame ≤ n
      → awdl_rx_data_amsdu M fresh garbage m s ≡ awdl_rx_data_amsdu M fresh garbage n s
  unfolding awdl_rx_data_amsdu
  amsdu_enough zero zero s h k = refl
  amsdu_enough zero (suc n) s h k =
      let empty : ltb 0 (buf_len s.frame) ≡ false = ground (arith, h) in rw (empty) refl
  amsdu_enough (suc m) zero s h k =
      let empty : ltb 0 (buf_len s.frame) ≡ false = ground (arith, k) in rw (empty) refl
  amsdu_enough (suc m) (suc n) s h k = elim (Bool-cases (ltb 0 (buf_len s.frame))) [
    | inl e ↦
        let step = λ (s' : RxState M.Table) (less : buf_len s'.frame < buf_len s.frame).
          amsdu_enough m n s' (omega (arith, less, h)) (omega (arith, less, k)) in
        rw e (
          same_end (subframe M fresh garbage s) _ _ (
            weaken (λ s'. buf_len s'.frame < buf_len s.frame) _ (subframe M fresh garbage s)
              (subframe_shortens s) step))
    | inr e ↦ rw e refl
  ]
