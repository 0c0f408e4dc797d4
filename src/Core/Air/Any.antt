-- ===== src/Core/Air/Any.antt =====
-- main/wifi/capture.c: captured frames of any bytes, one after another.
use esp_owl.Base.{
  All, Bool, if◌then◌else◌, true, false, IsByte, List, [], drop, ltb, not, refl, take, ℕ, ◌+◌, ◌∷◌,
  ◌≡◌,
}
use esp_owl.Channel.{Chan}
use esp_owl.Wire.{Buf, buf_new_const}
use esp_owl.Sync.Windows
use esp_owl.Peers.{Peer}
use esp_owl.Peers.Table.{PeerMap}
use esp_owl.State.{AwdlState}
use esp_owl.Rx.Action.{RxState}
use esp_owl.Rx.Data.{LlcHdr}
use esp_owl.Rx.Header.{memcmp_eq}
use esp_owl.Rx.Keeps.{NodeKept}
use esp_owl.Rx.Keeps.Frame.{rx-IsKept}
use esp_owl.Core.Capture.{Captured, awdl_data_mac, awdl_receive_frame, wifi_sniffer_packet_handler}

-- A frame as the driver hands it on: the time, its type, and its bytes behind the driver's header.
pub record Air : Type 0 where
  pub now : ℕ
  pub type : ℕ
  pub buff : List ℕ

abbrev pub OfBytes : Air → Type 0
OfBytes a = All IsByte a.buff

module _ (M : PeerMap) (ctrl_len : ℕ) (peer_garbage : Peer) (stack : List Chan) (fresh : List ℕ)
    (llc_garbage : LlcHdr) (has_netif : Bool) (sig_len : List ℕ → ℕ) where
  record CapturedKept (n : AwdlState) (c : Captured M.Table) : Type 0 where
    table : M.IsValid c.peers
    node : NodeKept n c.node

  receive_kept :
      (n : AwdlState) (now len : ℕ) (buff : List ℕ) (c : Captured M.Table)
      → All IsByte buff
      → CapturedKept n c
      → CapturedKept n (
          awdl_receive_frame M ctrl_len peer_garbage stack fresh llc_garbage has_netif sig_len now
            buff len c)
  unfolding awdl_receive_frame buf_new_const
  receive_kept n now len buff c bytes h =
      let frame : Buf = record { bytes = buff; off = 0; len = len; owned = false } in
      let start : RxState M.Table = record {
        frame = frame;
        node = c.node;
        peers = c.peers;
        out = [];
      } in
      let kept =
        rx-IsKept M n ctrl_len peer_garbage stack fresh llc_garbage now start
          (record { table = h.table; bytes = bytes; node = h.node }) in
      record { table = kept.table; node = kept.node }

  either :
      (n : AwdlState) (test : Bool) (c d : Captured M.Table)
      → CapturedKept n c
      → CapturedKept n d
      → CapturedKept n (if test then c else d)
  either n true c d h k = h
  either n false c d h k = k

  handler_kept :
      (n : AwdlState) (a : Air) (c : Captured M.Table)
      → OfBytes a
      → CapturedKept n c
      → CapturedKept n (
          wifi_sniffer_packet_handler M ctrl_len peer_garbage stack fresh llc_garbage has_netif
            sig_len a.now a.type a.buff c)
  unfolding wifi_sniffer_packet_handler
  handler_kept n a c bytes h =
      let addr3 = take 6 (drop (ctrl_len + 16) a.buff) in
      let received = receive_kept n a.now (ctrl_len + sig_len a.buff) a.buff c bytes h in
      either n (ltb 3 a.type) c _ h (
        either n (not (memcmp_eq addr3 awdl_data_mac)) c _ h
          (either n c.node.running _ c received h))

  -- The frames one after another.
  abbrev pub capture_all : List Air → Captured M.Table → Captured M.Table
  capture_all [] c = c
  capture_all (a ∷ air) c = capture_all air (
      wifi_sniffer_packet_handler M ctrl_len peer_garbage stack fresh llc_garbage has_netif sig_len
        a.now a.type a.buff c)

  frames_kept :
      (n : AwdlState) (air : List Air) (c : Captured M.Table)
      → All OfBytes air
      → CapturedKept n c
      → CapturedKept n (capture_all air c)
  frames_kept n [] c bytes h = h
  frames_kept n (a ∷ air) c (here, later) h = frames_kept n air _ later (handler_kept n a c here h)

  -- Whatever the driver captures, of any bytes, in any order and at any times, as long as no frame
  -- makes awdl_rx hand on more than 16 packets: when the clock and the table of peers are in good
  -- order before, they are in good order afterwards, and of the node nothing but its clock and its
  -- counters has changed.
  pub captured-IsValid :
      (air : List Air) (c : Captured M.Table)
      → All OfBytes air
      → Windows.IsValid c.node.sync
      → M.IsValid c.peers
      → let after = capture_all air c in
        after.overrun ≡ false
        → Windows.IsValid after.node.sync
          × M.IsValid after.peers
          × (after.node ≡ record c.node { sync = after.node.sync; stats = after.node.stats })
  captured-IsValid air c bytes clock table in_place =
      let start : CapturedKept c.node c = record {
        table = table;
        node = record { clock = clock; rest = refl };
      } in
      let kept = frames_kept c.node air c bytes start in
      (kept.node.clock, kept.table, kept.node.rest)
