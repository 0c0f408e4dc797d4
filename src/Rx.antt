-- ===== src/Rx.antt =====
-- main/owl/rx.h and rx.c: the results of the receive path, and its early returns as a monad.
-- The children have the handlers, from the TLVs up to whole frames.
pub mod Header
pub mod Tlvs
pub mod Action
pub mod Data
pub mod Receive
pub mod Keeps
pub mod Aggregate
pub mod Loop
pub mod Payload
pub mod Announce
pub mod Tests
use esp_owl.Base.{Bool, Option, none, some, if◌then◌else◌}
use esp_owl.Base.Int.{negsuc, pos, ℤ}

-- `enum RX_RESULT`
abbrev pub rx_ignore_peer : ℤ
rx_ignore_peer = pos 6

abbrev pub rx_ignore_rssi : ℤ
rx_ignore_rssi = pos 5

abbrev pub rx_ignore_nopromisc : ℤ
rx_ignore_nopromisc = pos 3

abbrev pub rx_ignore_from_self : ℤ
rx_ignore_from_self = pos 2

abbrev pub rx_ignore : ℤ
rx_ignore = pos 1

abbrev pub rx_ok : ℤ
rx_ok = pos 0

abbrev pub rx_unexpected_format : ℤ
rx_unexpected_format = negsuc 0

abbrev pub rx_unexpected_type : ℤ
rx_unexpected_type = negsuc 1

abbrev pub rx_unexpected_value : ℤ
rx_unexpected_value = negsuc 2

abbrev pub rx_too_short : ℤ
rx_too_short = negsuc 2

-- A statement goes on with a value, or the function returns a code.
pub data Outcome {ℓ} (A : Type ℓ) : Type ℓ where
  next : A → Outcome A
  return : ℤ → Outcome A

-- Statements that update an `S`. What was stored before an early return stays stored.
abbrev pub Statement {ℓ κ} : Type ℓ → Type κ → Type (ℓ ⊔ κ)
Statement S A = S → Outcome A × S

abbrev pub following {ℓ κ μ} :
    {S : Type ℓ} {A : Type κ} {B : Type μ} → Outcome A × S → (A → Statement S B) → Outcome B × S
following (next a, s) f = f a s
following (return code, s) f = (return code, s)

infixl 5 ◌>>=◌ ◌>>◌
abbrev pub ◌>>=◌ {ℓ κ μ} :
    {S : Type ℓ} {A : Type κ} {B : Type μ} → Statement S A → (A → Statement S B) → Statement S B
(m >>= f) s = following (m s) f

abbrev pub ◌>>◌ {ℓ κ μ} :
    {S : Type ℓ} {A : Type κ} {B : Type μ} → Statement S A → Statement S B → Statement S B
m >> k = m >>= λ _. k

-- `READ_…` and `BUF_…`: a refused access jumps to `wire_error`.
abbrev pub try {ℓ κ} : {S : Type ℓ} {A : Type κ} → Option A → Statement S A
try (some a) s = (next a, s)
try none s = (return rx_too_short, s)

-- `if (stop) return code;`
abbrev pub return_if {ℓ} : {S : Type ℓ} → Bool → ℤ → Statement S Bool
return_if stop code s = if stop then (return code, s) else (next stop, s)

abbrev pub assign {ℓ} : {S : Type ℓ} → (S → S) → Statement S Bool
assign f s = (next Bool.true, f s)

-- The end of a function, with the code that it returns.
abbrev pub finish {ℓ κ} : {S : Type ℓ} {A : Type κ} → Outcome A × S → ℤ × S
finish (next _, s) = (rx_ok, s)
finish (return code, s) = (code, s)

abbrev pub current {ℓ} : {S : Type ℓ} → Statement S S
current s = (next s, s)
