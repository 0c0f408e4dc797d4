-- ===== src/Rx/Keeps.antt =====
-- main/owl/rx.c: what a received frame cannot spoil, whatever its bytes are. The lemmas follow a
-- predicate on the state through statements, whether these go on or return.
pub mod Action
pub mod Data
pub mod Frame
use esp_owl.Base.{Bool, Option, false, none, refl, some, true, ◌≡◌}
use esp_owl.Base.Int.{ℤ}
use esp_owl.Wire.Bytes.{HasBytes}
use esp_owl.Sync.Windows
use esp_owl.State.{AwdlState}
use esp_owl.Peers.Table.{PeerMap}
use esp_owl.Rx.{Outcome, Statement, finish, following, next, return, return_if, try}
use esp_owl.Rx.Action.{RxState}

module _ {S : Type 0} (P : S → Type 0) where
  pub after :
      {A B : Type 0} (r : Outcome A × S) (f : A → Statement S B)
      → P r.1
      → ((a : A) (s : S) → P s → P (f a s).1)
      → P (following r f).1
  after (next a, s) f h then = then a s h
  after (return code, s) f h then = h

  pub after_try :
      {A B : Type 0} (o : Option A) (f : A → Statement S B) (s : S)
      → P s
      → ((a : A) → o ≡ some a → P (f a s).1)
      → P (following (try o s) f).1
  after_try none f s h then = h
  after_try (some a) f s h then = then a refl

  pub after_return_if :
      {B : Type 0} (stop : Bool) (code : ℤ) (f : Bool → Statement S B) (s : S)
      → P s
      → (stop ≡ false → P (f false s).1)
      → P (following (return_if stop code s) f).1
  after_return_if true code f s h then = h
  after_return_if false code f s h then = then refl

  pub after_finish : {A : Type 0} (r : Outcome A × S) → P r.1 → P (finish r).1
  after_finish (next a, s) h = h
  after_finish (return code, s) h = h

-- The clock is in good order, and of the node only the clock and the counters differ from those of
-- `n`.
pub record NodeKept (n state : AwdlState) : Type 0 where
  pub clock : Windows.IsValid state.sync
  pub rest : state ≡ record n { sync = state.sync; stats = state.stats }

-- The table is in good order too, and the frame is made of bytes.
pub record IsKept (M : PeerMap) (n : AwdlState) (s : RxState M.Table) : Type 0 where
  pub table : M.IsValid s.peers
  pub bytes : HasBytes s.frame
  pub node : NodeKept n s.node
