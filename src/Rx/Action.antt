-- ===== src/Rx/Action.antt =====
-- main/owl/rx.c: `awdl_rx_action`, which takes an action frame into the table of peers.
use esp_owl.Rx.{
  Outcome, Statement, assign, current, finish, next, return, return_if, rx_ignore, rx_ignore_rssi,
  rx_unexpected_format, ◌>>=◌, ◌>>◌,
}
use esp_owl.Base.{
  Bool, List, Option, false, get_or, if◌then◌else◌, ltb, none, some, suc, true, zero, ℕ, ◌&&◌, ◌+◌,
  ◌==◌,
}
use esp_owl.Base.Int.{ltb_ℤ, pos, ℤ, ◌+ℤ◌}
use esp_owl.Ethernet.{EtherAddr}
use esp_owl.Wire.{Buf, buf_data, buf_len, buf_strip, read_tlv}
use esp_owl.Channel.{Chan}
use esp_owl.Sync.{u64}
use esp_owl.Peers.{Peer}
use esp_owl.Peers.Table.{
  PeerMap, PeersStatus, awdl_peer_add, awdl_peer_get, is_failure, peers_missing, peers_ok,
}
use esp_owl.State.{AwdlState}
use esp_owl.Frame.{action_hdr_len, action_mif}
use esp_owl.Rx.Header.{awdl_parse_action_hdr}
use esp_owl.Rx.Tlvs.{awdl_handle_tlv}

-- What the receive path works on: the frame that is consumed, the node's state, its peers, and
-- the Ethernet frames that are handed on.
pub record RxState (Table : Type 0) : Type 0 where
  pub frame : Buf
  pub node : AwdlState
  pub peers : Table
  pub out : List Buf

-- `buf_strip` whose result is not looked at
abbrev pub strip_frame : {T : Type 0} → ℕ → RxState T → RxState T
strip_frame n s = record s { frame = (buf_strip s.frame (pos n)).1 }

-- The loop over the TLVs. A round strips at least three bytes, so that as many rounds as the
-- frame has bytes are enough. What is left of the frame after an error is not used.
unfoldable pub handle_tlvs :
    ℕ → List Chan → ℕ → Peer → Buf → AwdlState → Outcome Buf × Peer × AwdlState
handle_tlvs zero stack tsft peer frame state = (next frame, peer, state)
handle_tlvs (suc rounds) stack tsft peer frame state = elim (read_tlv frame (pos 0)) [
  | none ↦ (next frame, peer, state)
  | some tlv ↦
      let val : Buf = record { bytes = tlv.val; off = 0; len = tlv.len; owned = false } in
      let (result, peer', state') = awdl_handle_tlv stack peer tlv.type val state tsft in
      if ltb_ℤ result (pos 0)
      then (return rx_unexpected_format, peer', state')
      else handle_tlvs rounds stack tsft peer' (buf_strip frame (pos tlv.next)).1 state'
]

-- The test of the signal strength against the thresholds for a known and for a new peer.
unfoldable pub is_too_weak : AwdlState → ℤ → PeersStatus → Bool
is_too_weak node rssi peers_ok = ltb_ℤ rssi (node.rssi_threshold +ℤ node.rssi_grace)
is_too_weak node rssi peers_missing = ltb_ℤ rssi node.rssi_threshold
is_too_weak node rssi _ = false

-- The last byte of a frame from this hardware.
unfoldable pub strip_zero : Buf → Buf
strip_zero frame =
    if buf_len frame == 1 && get_or (buf_data frame) 0 0 == 0
    then (buf_strip frame (pos 1)).1
    else frame

module _ (M : PeerMap) where
  -- What follows the loop over the TLVs, for the peer that the table holds.
  unfoldable pub after_tlvs :
      EtherAddr
      → ℕ
      → RxState M.Table
      → Outcome Buf × Peer × AwdlState
      → Outcome Bool × RxState M.Table
  after_tlvs src subtype s (end, told, node) =
      let s' : RxState M.Table = record s { node = node; peers = M.set s.peers src told } in
      elim end [
        | return code ↦ (return code, s')
        | next rest ↦
            let left : Buf = strip_zero rest in
            let done : Peer =
              if subtype == action_mif then record told { sent_mif = true } else told in
            if ltb 4 (buf_len left)
            then (return rx_unexpected_format, record s' { frame = left })
            else (next true, record s' { frame = left; peers = M.set s.peers src done })
      ]

  unfoldable pub take_tlvs : List Chan → ℕ → EtherAddr → ℕ → Peer → Statement (RxState M.Table) Bool
  take_tlvs stack tsft src subtype peer s =
      after_tlvs src subtype s (handle_tlvs (buf_len s.frame) stack tsft peer s.frame s.node)

  -- `garbage` is a peer as `malloc` leaves it, `stack` the array in the handler of sequences.
  unfoldable pub awdl_rx_action :
      Peer → List Chan → ℤ → ℕ → EtherAddr → RxState M.Table → ℤ × RxState M.Table
  awdl_rx_action garbage stack rssi tsft src start = finish (handler start)
    where
      add : Statement (RxState M.Table) PeersStatus
      add s =
          let (status, peers, _) = awdl_peer_add M garbage s.peers src tsft in
          (next status, record s { peers = peers })

      or_return : {A : Type 0} → Option A → ℤ → Statement (RxState M.Table) A
      or_return (some a) code s = (next a, s)
      or_return none code s = (return code, s)

      handler : Statement (RxState M.Table) PeersStatus
      handler = do
        subtype ← or_return (awdl_parse_action_hdr start.frame) rx_ignore
        assign (strip_frame action_hdr_len)
        return_if
            (start.node.filter_rssi
              && is_too_weak start.node rssi (awdl_peer_get M start.peers src).0)
            rx_ignore_rssi
        assign (λ s. record s {
          node = record s.node {
            stats = record s.node.stats { rx_action = u64 (s.node.stats.rx_action + 1) };
          };
        })
        status ← add
        return_if (is_failure status) rx_ignore
        s ← current
        peer ← or_return (awdl_peer_get M s.peers src).1 rx_ignore
        take_tlvs stack tsft src subtype peer
        add
