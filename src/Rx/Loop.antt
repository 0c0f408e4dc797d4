-- ===== src/Rx/Loop.antt =====
-- main/owl/rx.c: the loop over the TLVs of an action frame, against a fold over their list.
use esp_owl.Rx.{Outcome, next, return, rx_unexpected_format}
use esp_owl.Base.{
  All, Bool, List, Option-cases, [], ap, append_assoc, arith, false, if◌then◌else◌, inl, inr,
  length, length-append, length-drop, none, refl, some, suc, sym, true, zero, ℕ, ◌++◌, ◌+◌, ◌<◌,
  ◌^◌, ◌∙◌, ◌∷◌, ◌≡◌, ◌≤◌, ◌*◌, get_elem?, le_value, lt→ltb,
}
use esp_owl.Base.Int.{ltb_ℤ, pos, ℤ}
use esp_owl.Wire.{Buf, Tlv, buf_strip, read_le16, read_bytes, read_tlv, read_u8}
use esp_owl.Wire.View.{
  IsValid, length-view, reads-view, slice?, strip-strip, strip-take-view, strip_nothing, view,
}
use mathlib.Core.Option
use esp_owl.Wire.Tlvs.{slice?_append, read_tlv-tlv_bytes, read_tlv_bounds, tlv_bytes}
use esp_owl.Channel.{Chan}
use esp_owl.Peers.{Peer}
use esp_owl.State.{AwdlState}
use esp_owl.Rx.Tlvs.{awdl_handle_tlv}
use esp_owl.Rx.Action.{handle_tlvs}
use esp_owl.Rx.Announce.{tlv_buf}

abbrev pub TlvList : Type 0
TlvList = List (ℕ × List ℕ)

abbrev pub encode : TlvList → List ℕ
encode [] = []
encode ((type, val) ∷ tlvs) = tlv_bytes type val ++ encode tlvs

-- The handlers one after another, up to the first that fails.
abbrev pub fold_tlvs : List Chan → ℕ → TlvList → Peer → AwdlState → Outcome Bool × Peer × AwdlState
fold_tlvs stack tsft [] peer state = (next true, peer, state)
fold_tlvs stack tsft ((type, val) ∷ tlvs) peer state =
    let (result, peer', state') = awdl_handle_tlv stack peer type (tlv_buf val) state tsft in
    if ltb_ℤ result (pos 0)
    then (return rx_unexpected_format, peer', state')
    else fold_tlvs stack tsft tlvs peer' state'

-- An outcome of the handlers, with what is left of the frame.
abbrev pub leave : Buf → Outcome Bool × Peer × AwdlState → Outcome Buf × Peer × AwdlState
leave left (next _, p, s) = (next left, p, s)
leave left (return code, p, s) = (return code, p, s)

-- Bytes that do not begin with a TLV: there are fewer than three, or they give a length that is
-- more than what follows.
abbrev pub Ends : List ℕ → Type 0
Ends (type ∷ l0 ∷ l1 ∷ rest) = length rest < l0 + 256 * l1
Ends _ = Unit

read_tlv_short : (b : Buf) → IsValid b → length (view b) < 3 → read_tlv b (pos 0) ≡ none
unfolding read_tlv read_u8 read_le16
read_tlv_short b v h = ground (arith, length-view b v)

read_tlv_long :
    (b : Buf) (type l0 l1 : ℕ) (rest : List ℕ)
    → IsValid b
    → view b ≡ type ∷ l0 ∷ l1 ∷ rest
    → length rest < l0 + 256 * l1
    → read_tlv b (pos 0) ≡ none
unfolding read_tlv
read_tlv_long b type l0 l1 rest v e short =
    let n = l0 + 256 * l1 in
    let first : read_u8 b (pos 0) ≡ some type =
      (reads-view b 0 0 v).0 ∙ ap (λ (xs : List ℕ). get_elem? xs 0) e in
    let field : read_le16 b (pos 1) ≡ some n =
      (reads-view b 1 0 v).1
      ∙ (ap (λ (xs : List ℕ). Option.map le_value (slice? xs 1 2)) e
          ∙ ap (Option.map le_value) (slice?_append (type ∷ []) (l0 ∷ l1 ∷ []) rest)
          ∙ ap some (omega arith)) in
    let missing : read_bytes b (pos 3) n ≡ none =
      (reads-view b 3 n v).6
      ∙ ap (λ (xs : List ℕ). slice? xs 3 n) e
      ∙ rw (lt→ltb (length (type ∷ l0 ∷ l1 ∷ rest)) (3 + n) (omega (arith, short))) refl in
    rw (first, field, missing) refl

read_tlv-Ends :
    (b : Buf) (rest : List ℕ) → IsValid b → view b ≡ rest → Ends rest → read_tlv b (pos 0) ≡ none
read_tlv-Ends b [] v e h = read_tlv_short b v (omega (arith, ap length e))
read_tlv-Ends b (_ ∷ []) v e h = read_tlv_short b v (omega (arith, ap length e))
read_tlv-Ends b (_ ∷ _ ∷ []) v e h = read_tlv_short b v (omega (arith, ap length e))
read_tlv-Ends b (type ∷ l0 ∷ l1 ∷ rest) v e h = read_tlv_long b type l0 l1 rest v e h

length-tlv_bytes : (type : ℕ) (val : List ℕ) → length (tlv_bytes type val) ≡ length val + 3
length-tlv_bytes type val = omega arith

leave_if :
    (c : Bool) (code : ℤ) (peer : Peer) (state : AwdlState) (left : Buf)
    (x : Outcome Buf × Peer × AwdlState) (y : Outcome Bool × Peer × AwdlState)
    → x ≡ leave left y
    → (if c then (return code, peer, state) else x)
      ≡ leave left (if c then (return code, peer, state) else y)
leave_if true code peer state left x y e = refl
leave_if false code peer state left x y e = e

abbrev value_buf : Tlv → Buf
value_buf tlv = record { bytes = tlv.val; off = 0; len = tlv.len; owned = false }

module _ (n : ℕ) (stack : List Chan) (tsft : ℕ) (peer : Peer) (frame : Buf)
    (state : AwdlState) where
  handle_tlvs-some :
      (tlv : Tlv)
      → read_tlv frame (pos 0) ≡ some tlv
      → let (result, peer', state') =
          awdl_handle_tlv stack peer tlv.type (value_buf tlv) state tsft in
        handle_tlvs (suc n) stack tsft peer frame state ≡ (
          if ltb_ℤ result (pos 0)
          then (return rx_unexpected_format, peer', state')
          else handle_tlvs n stack tsft peer' (buf_strip frame (pos tlv.next)).1 state')
  unfolding handle_tlvs
  handle_tlvs-some tlv e = rw (handle_tlvs, e) refl

  handle_tlvs-none :
      read_tlv frame (pos 0) ≡ none
      → handle_tlvs (suc n) stack tsft peer frame state ≡ (next frame, peer, state)
  unfolding handle_tlvs
  handle_tlvs-none e = rw (handle_tlvs, e) refl

-- The loop on a valid frame that holds the bytes of a list of TLVs, whose values fit the length
-- field, and behind them bytes that do not begin with a TLV, is the fold over that list, given more
-- rounds than TLVs. It leaves the frame behind the TLVs.
pub handle_tlvs-encode :
    (rounds : ℕ) (stack : List Chan) (tsft : ℕ) (tlvs : TlvList) (rest : List ℕ) (peer : Peer)
    (frame : Buf) (state : AwdlState)
    → IsValid frame
    → view frame ≡ encode tlvs ++ rest
    → All (λ (t : ℕ × List ℕ). length t.1 < 2 ^ 16) tlvs
    → Ends rest
    → length tlvs < rounds
    → handle_tlvs rounds stack tsft peer frame state
      ≡ leave
          (buf_strip frame (pos (length (encode tlvs)))).1
          (fold_tlvs stack tsft tlvs peer state)
handle_tlvs-encode zero stack tsft tlvs rest peer frame state v e small short enough =
    absurd (omega (arith, enough))
handle_tlvs-encode (suc n) stack tsft [] rest peer frame state v e small short enough =
    handle_tlvs-none n stack tsft peer frame state (read_tlv-Ends frame rest v e short)
    ∙ ap (λ (b : Buf). leave b (next true, peer, state)) (sym (strip_nothing frame))
handle_tlvs-encode (suc n) stack tsft ((type, val) ∷ tlvs) rest peer frame state v e (h, small)
      short enough =
    let split : view frame ≡ tlv_bytes type val ++ (encode tlvs ++ rest) =
      e ∙ append_assoc (tlv_bytes type val) (encode tlvs) rest in
    let (read, left) = read_tlv-tlv_bytes frame type val (encode tlvs ++ rest) v h split in
    let room : length val + 3 + length (encode tlvs) ≤ frame.len = omega (
      arith,
      length-view frame v,
      ap length split,
      length-append (tlv_bytes type val) (encode tlvs ++ rest),
      length-append (encode tlvs) rest,
      length-tlv_bytes type val,
    ) in
    let (_, _, valid, _, _, _, _) =
      strip-take-view frame (length val + 3) v (omega (arith, room)) in
    let (result, peer', state') = awdl_handle_tlv stack peer type (tlv_buf val) state tsft in
    let behind : Buf = (buf_strip frame (pos (length val + 3))).1 in
    let total : length val + 3 + length (encode tlvs) ≡ length (tlv_bytes type val ++ encode tlvs) =
      omega (arith, length-append (tlv_bytes type val) (encode tlvs), length-tlv_bytes type val) in
    let induction =
      handle_tlvs-encode n stack tsft tlvs rest peer' behind state' valid left small short
        (omega (arith, enough))
      ∙ ap (λ (b : Buf). leave b (fold_tlvs stack tsft tlvs peer' state'))
          (strip-strip frame (length val + 3) (length (encode tlvs)) room
            ∙ ap (λ (k : ℕ). (buf_strip frame (pos k)).1) total) in
    handle_tlvs-some n stack tsft peer frame state _ read
    ∙ leave_if (ltb_ℤ result (pos 0)) rx_unexpected_format peer' state' _ _ _ induction

same_rest :
    (c : Bool) (a x y : Outcome Buf × Peer × AwdlState)
    → x ≡ y
    → (if c then a else x) ≡ (if c then a else y)
same_rest c a x y e = rw e refl

strip_bounds :
    (frame : Buf) (tlv : Tlv)
    → IsValid frame
    → read_tlv frame (pos 0) ≡ some tlv
    → IsValid (buf_strip frame (pos tlv.next)).1
      × ((buf_strip frame (pos tlv.next)).1.len < frame.len)
strip_bounds frame tlv v e =
    let (three, _, fits) = read_tlv_bounds frame 0 tlv v e in
    let (left, _, valid, _, _, _, _) = strip-take-view frame tlv.next v (omega (arith, fits)) in
    (
      valid,
      omega (
        arith,
        three,
        fits,
        ap length left,
        length-drop tlv.next (view frame),
        length-view frame v,
        length-view (buf_strip frame (pos tlv.next)).1 valid,
      ),
    )

-- On a valid frame any two numbers of rounds that are at least the bytes of the frame give the
-- same result.
pub handle_tlvs_enough :
    (n m : ℕ) (stack : List Chan) (tsft : ℕ) (peer : Peer) (frame : Buf) (state : AwdlState)
    → IsValid frame
    → frame.len ≤ n
    → frame.len ≤ m
    → handle_tlvs n stack tsft peer frame state ≡ handle_tlvs m stack tsft peer frame state
unfolding handle_tlvs
handle_tlvs_enough zero zero stack tsft peer frame state v h k = refl
handle_tlvs_enough zero (suc m) stack tsft peer frame state v h k = sym (
    handle_tlvs-none m stack tsft peer frame state
      (read_tlv_short frame v (omega (arith, h, length-view frame v))))
handle_tlvs_enough (suc n) zero stack tsft peer frame state v h k =
    handle_tlvs-none n stack tsft peer frame state
      (read_tlv_short frame v (omega (arith, k, length-view frame v)))
handle_tlvs_enough (suc n) (suc m) stack tsft peer frame state v h k =
    elim (Option-cases (read_tlv frame (pos 0))) [
      | inl e ↦
          handle_tlvs-none n stack tsft peer frame state e
          ∙ sym (handle_tlvs-none m stack tsft peer frame state e)
      | inr (tlv, e) ↦
          let (valid, less) = strip_bounds frame tlv v e in
          let (result, peer', state') =
            awdl_handle_tlv stack peer tlv.type (value_buf tlv) state tsft in
          let behind : Buf = (buf_strip frame (pos tlv.next)).1 in
          let induction =
            handle_tlvs_enough n m stack tsft peer' behind state' valid (omega (arith, less, h))
              (omega (arith, less, k)) in
          handle_tlvs-some n stack tsft peer frame state tlv e
          ∙ (same_rest (ltb_ℤ result (pos 0)) _ _ _ induction
              ∙ sym (handle_tlvs-some m stack tsft peer frame state tlv e))
    ]
