-- ===== src/Rx/Keeps/Action.antt =====
-- main/owl/rx.c: action frames, of any bytes.
use esp_owl.Base.{
  get_or, if◌then◌else◌, ltb, ◌&&◌, not, Bool-cases, List, Option-cases, ap, arith, false, inl, inr,
  some, subst, suc, sym, true, zero, ℕ, ◌<◌, ◌==◌, ◌^◌, ◌+◌, ◌≡◌,
}
use esp_owl.Base.Int.{ltb_ℤ, pos, ℤ}
use esp_owl.Ethernet.{EtherAddr}
use esp_owl.Channel.{Chan}
use esp_owl.Wire.{buf_data, buf_len, Buf, buf_strip, read_le16, read_tlv}
use esp_owl.Wire.Bytes.{HasBytes, read_le16_bound, read_tlv-HasBytes, strip-HasBytes}
use esp_owl.Sync.{SyncState, awdl_sync_error_tu, u64}
use esp_owl.Sync.Windows
use esp_owl.Sync.Update.{update_last-IsValid}
use esp_owl.Peers.{Peer}
use esp_owl.Peers.Table.{PeerMap, awdl_peer_add, awdl_peer_get}
use esp_owl.Peers.Table.Update.{get-add, get_known}
use esp_owl.State.{AwdlState}
use esp_owl.Frame.{action_hdr_len, action_mif, synchronization_parameters_tlv}
use esp_owl.Election.{awdl_election_is_sync_master}
use esp_owl.Rx.{rx_ignore, Outcome, next, return}
use esp_owl.Rx.Header.{awdl_parse_action_hdr}
use esp_owl.Rx.Tlvs.{awdl_handle_sync_params_tlv, awdl_handle_tlv, measure, is_sync_error}
use esp_owl.Rx.Action.{
  RxState, is_too_weak, after_tlvs, awdl_rx_action, handle_tlvs, strip_zero, take_tlvs,
}
use esp_owl.Rx.Keeps.{NodeKept, IsKept, after, after_finish, after_return_if, after_try}

measure-IsValid :
    (now time counter : ℕ) (s : SyncState)
    → Windows.IsValid s
    → counter < 2 ^ 16
    → Windows.IsValid (measure now time counter s)
unfolding measure
measure-IsValid now time counter s v h =
    let counted : SyncState = record s { meas_total = u64 (s.meas_total + 1) } in
    let v' : Windows.IsValid counted = record {
      period = v.period;
      presence = v.presence;
      counter = v.counter;
      aligned = v.aligned;
      clock = v.clock;
    } in
    let w = update_last-IsValid now time counter v' h in
    elim (Bool-cases (is_sync_error (awdl_sync_error_tu now time counter counted))) [
      | inl e ↦ rw e (record {
        period = w.period;
        presence = w.presence;
        counter = w.counter;
        aligned = w.aligned;
        clock = w.clock;
      })
      | inr e ↦ rw e w
    ]

sync_kept :
    (n : AwdlState) (src : Peer) (val : Buf) (state : AwdlState) (now : ℕ)
    → HasBytes val
    → NodeKept n state
    → NodeKept n (awdl_handle_sync_params_tlv src val state now).1
unfolding awdl_handle_sync_params_tlv
sync_kept n src val state now bytes h =
    let P = NodeKept n in
    let stop = not (awdl_election_is_sync_master state.election src.addr) in
    after_finish P _ (
      after_return_if P stop rx_ignore _ state h λ _.
        after_try P (read_le16 val (pos 1)) _ state h λ time _.
          after_try P (read_le16 val (pos 29)) _ state h λ counter e. record {
            clock =
                measure-IsValid now time counter state.sync h.clock
                  (read_le16_bound val 29 counter bytes e);
            rest =
                ap (λ (s : AwdlState). record s { sync = measure now time counter state.sync })
                  h.rest;
          })

tlv_kept :
    (n : AwdlState) (stack : List Chan) (src : Peer) (type : ℕ) (val : Buf) (state : AwdlState)
    (tsft : ℕ)
    → HasBytes val
    → NodeKept n state
    → NodeKept n (awdl_handle_tlv stack src type val state tsft).2
unfolding awdl_handle_tlv
tlv_kept n stack src type val state tsft bytes h =
    elim (Bool-cases (type == synchronization_parameters_tlv)) [
      | inl e ↦ rw e (sync_kept n src val state tsft bytes h)
      | inr e ↦
          let same : (awdl_handle_tlv stack src type val state tsft).2 ≡ state =
            rw e (ground arith) in
          subst (NodeKept n) (sym same) h
    ]

abbrev Left : Outcome Buf → Type 0
Left (next frame) = HasBytes frame
Left (return code) = Unit

-- What the loop over the TLVs leaves.
record LoopKept (n : AwdlState) (r : Outcome Buf × Peer × AwdlState) : Type 0 where
  state : NodeKept n r.2
  left : Left r.0

loop_kept :
    (n : AwdlState) (rounds : ℕ) (stack : List Chan) (tsft : ℕ) (peer : Peer) (frame : Buf)
    (state : AwdlState)
    → HasBytes frame
    → NodeKept n state
    → LoopKept n (handle_tlvs rounds stack tsft peer frame state)
unfolding handle_tlvs
loop_kept n zero stack tsft peer frame state bytes h = record { state = h; left = bytes }
loop_kept n (suc rounds) stack tsft peer frame state bytes h =
    elim (Option-cases (read_tlv frame (pos 0))) [
      | inl e ↦ rw (handle_tlvs, e) (record { state = h; left = bytes })
      | inr (tlv, e) ↦
          let val : Buf = record { bytes = tlv.val; off = 0; len = tlv.len; owned = false } in
          let r = awdl_handle_tlv stack peer tlv.type val state tsft in
          let kept : NodeKept n r.2 =
            tlv_kept n stack peer tlv.type val state tsft (read_tlv-HasBytes frame tlv bytes e) h in
          elim (Bool-cases (ltb_ℤ r.0 (pos 0))) [
            | inl f ↦ rw (handle_tlvs, e, f) (record { state = kept; left = tt })
            | inr f ↦
                rw (handle_tlvs, e, f)
                  (loop_kept n rounds stack tsft r.1 (buf_strip frame (pos tlv.next)).1 r.2
                    (strip-HasBytes frame tlv.next bytes) kept)
          ]
    ]

strip_zero-HasBytes : (frame : Buf) → HasBytes frame → HasBytes (strip_zero frame)
unfolding strip_zero
strip_zero-HasBytes frame h =
    elim (Bool-cases (buf_len frame == 1 && get_or (buf_data frame) 0 0 == 0)) [
      | inl e ↦ rw e (strip-HasBytes frame 1 h)
      | inr e ↦ rw e h
    ]

module _ (M : PeerMap) (n : AwdlState) where
  after_tlvs-IsKept :
      (src : EtherAddr) (subtype : ℕ) (p : Peer) (s : RxState M.Table)
      (r : Outcome Buf × Peer × AwdlState)
      → IsKept M n s
      → M.get s.peers src ≡ some p
      → LoopKept n r
      → IsKept M n (after_tlvs M src subtype s r).1
  unfolding after_tlvs
  after_tlvs-IsKept src subtype p s (return code, told, node) h known loop =
      let (table, _, _) = M.get-set s.peers src p told h.table known in
      record { table = table; bytes = h.bytes; node = loop.state }
  after_tlvs-IsKept src subtype p s (next rest, told, node) h known loop =
      let left = strip_zero rest in
      let bytes = strip_zero-HasBytes rest loop.left in
      let done : Peer = if subtype == action_mif then record told { sent_mif = true } else told in
      let (table1, _, _) = M.get-set s.peers src p told h.table known in
      let (table2, _, _) = M.get-set s.peers src p done h.table known in
      elim (Bool-cases (ltb 4 (buf_len left))) [
        | inl e ↦ rw (after_tlvs, e) (record { table = table1; bytes = bytes; node = loop.state })
        | inr e ↦ rw (after_tlvs, e) (record { table = table2; bytes = bytes; node = loop.state })
      ]

  pub action-IsKept :
      (garbage : Peer) (stack : List Chan) (rssi : ℤ) (tsft : ℕ) (src : EtherAddr)
      (s : RxState M.Table)
      → IsKept M n s
      → IsKept M n (awdl_rx_action M garbage stack rssi tsft src s).1
  unfolding awdl_rx_action take_tlvs
  action-IsKept garbage stack rssi tsft src s h =
      let behind : Buf = (buf_strip s.frame (pos action_hdr_len)).1 in
      let bytes = strip-HasBytes s.frame action_hdr_len h.bytes in
      let weak = s.node.filter_rssi && is_too_weak s.node rssi (awdl_peer_get M s.peers src).0 in
      let added = awdl_peer_add M garbage s.peers src tsft in
      let counted : AwdlState = record s.node {
        stats = record s.node.stats { rx_action = u64 (s.node.stats.rx_action + 1) };
      } in
      let node : NodeKept n counted = record {
        clock = h.node.clock;
        rest = ap (λ (m : AwdlState). record m { stats = counted.stats }) h.node.rest;
      } in
      elim (Option-cases (awdl_parse_action_hdr s.frame)) [
        | inl e ↦ rw (awdl_rx_action, e) h
        | inr (subtype, e) ↦ elim (Bool-cases weak) [
          | inl f ↦
              rw (awdl_rx_action, e, f) (record { table = h.table; bytes = bytes; node = h.node })
          | inr f ↦ elim (get-add M garbage s.peers src tsft h.table).1 [
            | inl (full, _) ↦
                rw (awdl_rx_action, e, f, full)
                  (record {
                    table = (get-add M garbage s.peers src tsft h.table).0;
                    bytes = bytes;
                    node = node;
                  })
            | inr (p, ok, known, _, _, _) ↦
                let s3 : RxState M.Table = record s {
                  frame = behind;
                  node = counted;
                  peers = added.1;
                } in
                let h3 : IsKept M n s3 = record {
                  table = (get-add M garbage s.peers src tsft h.table).0;
                  bytes = bytes;
                  node = node;
                } in
                let loop = loop_kept n (buf_len behind) stack tsft p behind counted bytes node in
                let taken = after_tlvs-IsKept src subtype p s3 _ h3 known loop in
                rw (awdl_rx_action, e, f, ok, get_known M added.1 src p known)
                  (after_finish (IsKept M n) _ (
                    after (IsKept M n) (take_tlvs M stack tsft src subtype p s3) _ taken λ _ s4 h4.
                      record {
                        table = (get-add M garbage s4.peers src tsft h4.table).0;
                        bytes = h4.bytes;
                        node = h4.node;
                      }))
          ]
        ]
      ]
