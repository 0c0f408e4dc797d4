-- ===== src/Core/Air.antt =====
-- main/owl/tx.c, rx.c and main/wifi/capture.c: a frame from the sender to the callback of the driver.
pub mod Mif
pub mod Any
pub mod Tests
use esp_owl.Base.{
  Bool, List, [], ap, arith, drop, drop-drop, drop_append, false, if◌then◌else◌, length,
  length-append, le→ltb_false, ltb, not, refl, some, subst, sym, take, take_all, true, ℕ, ◌&&◌,
  ◌++◌, ◌+◌, ◌<◌, ◌^◌, ◌∙◌, ◌∷◌, ◌≡◌, ◌≤◌, ◌*◌, ◌%◌, ◌||◌, Bool-cases, inl, inr,
}
use esp_owl.Base.Int.{pos, ℤ}
use esp_owl.Ethernet.{EtherAddr, octets}
use esp_owl.Wire.{Buf, buf_new_const}
use esp_owl.Wire.View.{IsValid, view}
use esp_owl.Channel.{Chan}
use esp_owl.Frame.{awdl_bssid}
use esp_owl.State.{AwdlState, Ieee80211State, ieee80211_state_next_sequence_number}
use esp_owl.Peers.{Peer}
use esp_owl.Peers.Table.{PeerMap, awdl_peer_get, is_failure}
use esp_owl.Rx.Header.{memcmp_eq}
use esp_owl.Rx.Action.{RxState}
use esp_owl.Rx.Data.{LlcHdr, awdl_rx_data}
use esp_owl.Rx.Receive.{awdl_rx, dispatch, is_group, kind_of, same_addr, signed_char}
use esp_owl.Rx.Receive.Accept.{awdl_rx_hdr, inner}
use esp_owl.Rx.{Outcome, Statement, finish, next, return}
use esp_owl.Rx.Payload.{data_received}
use esp_owl.Core.Host.{data_to_host}
use esp_owl.Rx.Receive.Header.{HdrRead, hdr_bytes, hdr_read}
use esp_owl.Tx.Frames.{
  awdl_init_data, awdl_init_full_data_frame, ieee80211_init_awdl_data_hdr, ieee80211_init_awdl_hdr,
  llc_init_awdl_hdr,
}
use esp_owl.Core.Capture.{
  Captured, awdl_data_mac, awdl_receive_frame, max_num_ampdu, to_host, wifi_sniffer_packet_handler,
}

-- The bytes that the driver gives to the callback: its own header, and the frame.
abbrev pub captured_bytes : ℕ → List ℕ → ℕ → EtherAddr → EtherAddr → ℕ → List ℕ → List ℕ
captured_bytes rssi ctrl type src dst control body =
    (rssi ∷ ctrl) ++ (hdr_bytes type src dst control ++ body)

third_address :
    (rssi type control : ℕ) (src dst : EtherAddr) (ctrl body : List ℕ)
    → take 6 (drop (length (rssi ∷ ctrl) + 16) (captured_bytes rssi ctrl type src dst control body))
      ≡ octets awdl_bssid
third_address rssi type control src dst ctrl body =
    let n = length (rssi ∷ ctrl) in
    let whole = captured_bytes rssi ctrl type src dst control body in
    ap (take 6) (
      sym (drop-drop 16 n whole)
      ∙ ap (drop 16) (drop_append (rssi ∷ ctrl) (hdr_bytes type src dst control ++ body)))

pub or_false : (b : Bool) → (b || false) ≡ b
or_false true = refl
or_false false = refl

-- What is left of awdl_rx.
abbrev pub given : {T : Type 0} → Bool → RxState T → Captured T
given overrun s = record {
  node = s.node;
  peers = s.peers;
  host = to_host true s.out;
  overrun = overrun || ltb max_num_ampdu (length s.out);
}

module _ (M : PeerMap) (peer_garbage : Peer) (stack : List Chan) (fresh : List ℕ)
    (llc_garbage : LlcHdr) (sig_len : List ℕ → ℕ) (now kind rssi type control : ℕ)
    (src dst : EtherAddr) (ctrl body : List ℕ) (c : Captured M.Table) where
  abbrev pub whole : List ℕ
  whole = captured_bytes rssi ctrl type src dst control body

  abbrev pub frame : Buf
  frame = record {
    bytes = whole;
    off = 0;
    len = length (rssi ∷ ctrl) + sig_len whole;
    owned = false;
  }

  abbrev pub start : RxState M.Table
  start = record { frame = frame; node = c.node; peers = c.peers; out = [] }

  -- Such a frame is given to awdl_rx when the node is running.
  pub handler_lem :
      kind ≤ 3
      → c.node.running ≡ true
      → let n = length (rssi ∷ ctrl) in
        let after = (awdl_rx M n peer_garbage stack fresh llc_garbage now start).1 in
        wifi_sniffer_packet_handler M n peer_garbage stack fresh llc_garbage true sig_len now kind
          whole c
        ≡ given c.overrun after
  unfolding wifi_sniffer_packet_handler awdl_receive_frame buf_new_const
  handler_lem low running =
      rw
        (
          wifi_sniffer_packet_handler,
          le→ltb_false 3 kind low,
          third_address rssi type control src dst ctrl body,
          running,
        )
        refl

  -- What awdl_rx reads of it, when the driver's header says how long it is.
  pub read_lem :
      sig_len whole ≡ 24 + length body
      → type < 2 ^ 16
      → HdrRead frame (length (rssi ∷ ctrl)) rssi type src dst body
  read_lem long small =
      let n = length (rssi ∷ ctrl) in
      let total : length whole ≡ n + (24 + length body) =
        omega (arith, length-append (rssi ∷ ctrl) (hdr_bytes type src dst control ++ body)) in
      let all : frame.len ≡ length whole = omega (arith, long, total) in
      hdr_read frame rssi type control src dst ctrl body (record { fits = omega (arith, all) })
        (ap (λ (m : ℕ). take m whole) all ∙ take_all whole) small

  abbrev pub taken : RxState M.Table
  taken = inner (length (rssi ∷ ctrl)) start

  -- A frame of another node, for this one or a group, is handed on by its kind.
  pub accept_lem :
      sig_len whole ≡ 24 + length body
      → type < 2 ^ 16
      → same_addr src c.node.self_address ≡ false
      → (is_group dst || same_addr dst c.node.self_address) ≡ true
      → let n = length (rssi ∷ ctrl) in
        awdl_rx M n peer_garbage stack fresh llc_garbage now start
        ≡ finish (
            dispatch M n peer_garbage stack fresh llc_garbage type
              (signed_char rssi)
              now
              src
              dst
              taken)
  accept_lem long small other mine =
      let pass : (not (is_group dst) && not (same_addr dst c.node.self_address)) ≡ false =
        ground (arith, mine) in
      awdl_rx_hdr M (length (rssi ∷ ctrl)) peer_garbage stack fresh llc_garbage now start rssi type
        src dst body (read_lem long small)
      ∙ rw (other, pass) refl

pub finish_state {ℓ κ} : {S : Type ℓ} {A : Type κ} (r : Outcome A × S) → (finish r).1 ≡ r.1
finish_state (next a, s) = refl
finish_state (return code, s) = refl

dispatch_data :
    (M : PeerMap) (n : ℕ) (peer_garbage : Peer) (stack : List Chan) (fresh : List ℕ)
    (garbage : LlcHdr) (rssi : ℤ) (now : ℕ) (src dst : EtherAddr)
    → dispatch M n peer_garbage stack fresh garbage 0x0008 rssi now src dst
      ≡ awdl_rx_data M fresh garbage src dst
unfolding dispatch kind_of
dispatch_data M n peer_garbage stack fresh garbage rssi now src dst = refl

module _ (M : PeerMap) (peer_garbage : Peer) (stack : List Chan) (fresh : List ℕ) (garbage : LlcHdr)
    (sig_len : List ℕ → ℕ) (now kind rssi : ℕ) (src dst : EtherAddr) (sender : AwdlState)
    (control : ℕ) (ctrl payload fcs : List ℕ) (c : Captured M.Table) where
  abbrev data_body : List ℕ
  data_body = llc_init_awdl_hdr ++ ((awdl_init_data sender).0 ++ (payload ++ fcs))

  abbrev air : List ℕ
  air = hdr_bytes 0x0008 src dst control ++ data_body

  data_given :
      kind ≤ 3
      → c.node.running ≡ true
      → length fcs ≡ 4
      → sig_len ((rssi ∷ ctrl) ++ air) ≡ 24 + length data_body
      → same_addr src c.node.self_address ≡ false
      → (is_group dst || same_addr dst c.node.self_address) ≡ true
      → is_failure (awdl_peer_get M c.peers src).0 ≡ false
      → length fresh ≡ 1518
      → 15 + length payload ≤ 1518
      → let after =
          wifi_sniffer_packet_handler M
            (length (rssi ∷ ctrl))
            peer_garbage
            stack
            fresh
            garbage
            true
            sig_len
            now
            kind
            ((rssi ∷ ctrl) ++ air)
            c in
        (after.host ≡ take (length payload % 256) payload ∷ [])
        × (after.peers ≡ c.peers)
        × (after.overrun ≡ c.overrun)
  data_given low running four long other mine known size fits =
      let n = length (rssi ∷ ctrl) in
      let s =
        taken M peer_garbage stack fresh garbage sig_len now kind rssi 0x0008 control src dst ctrl
          data_body c in
      let h =
        read_lem M peer_garbage stack fresh garbage sig_len now kind rssi 0x0008 control src dst
          ctrl data_body c long (omega arith) in
      let x = awdl_rx_data M fresh garbage src dst s in
      let whole =
        handler_lem M peer_garbage stack fresh garbage sig_len now kind rssi 0x0008 control src dst
          ctrl data_body c low running
        ∙ ap (λ (r : ℤ × RxState M.Table). given c.overrun r.1)
            (accept_lem M peer_garbage stack fresh garbage sig_len now kind rssi 0x0008 control src
                dst ctrl data_body c long (omega arith) other mine
              ∙ ap (λ (f : Statement (RxState M.Table) Bool). finish (f s))
                  (dispatch_data M n peer_garbage stack fresh garbage (signed_char rssi) now src
                    dst))
        ∙ ap (λ (r : RxState M.Table). given c.overrun r) (finish_state x) in
      let (_, host) =
        data_to_host M fresh garbage src dst sender payload fcs s h.valid four h.rest known refl
          size fits in
      let (_, out, _, kept) =
        data_received M fresh garbage src dst sender payload fcs s h.valid four h.rest known in
      (
        ap (λ (r : Captured M.Table). r.host) whole ∙ host,
        ap (λ (r : Captured M.Table). r.peers) whole ∙ kept,
        ap (λ (r : Captured M.Table). r.overrun) whole
            ∙ ap (λ (xs : List Buf). c.overrun || ltb max_num_ampdu (length xs)) out
            ∙ or_false c.overrun,
      )

abbrev pub control_of : Ieee80211State → ℕ
control_of ieee = (ieee80211_state_next_sequence_number ieee).0 * 16

-- A data frame without checksum, and with the four bytes that the radio puts behind it.
data_bytes :
    (src dst : EtherAddr) (payload fcs : List ℕ) (sender : AwdlState) (ieee : Ieee80211State)
    → ieee.fcs ≡ false
    → (awdl_init_full_data_frame src dst payload sender ieee).0 ++ fcs
      ≡ hdr_bytes 0x0008 src dst (control_of ieee)
        ++ (llc_init_awdl_hdr ++ ((awdl_init_data sender).0 ++ (payload ++ fcs)))
unfolding awdl_init_full_data_frame ieee80211_init_awdl_data_hdr ieee80211_init_awdl_hdr
    ieee80211_state_next_sequence_number llc_init_awdl_hdr awdl_init_data
data_bytes src dst payload fcs sender ieee off = rw off refl

-- A data frame as a node sends it without a checksum, which the radio gets with four bytes behind
-- it, and a header of the driver, which says how long it is, in front of it, is given to a running
-- node. It is not from this node, is for this node or a group, comes from a peer that the table
-- has, and its payload fits into an Ethernet frame. Then the host gets exactly one packet, the
-- first bytes of the payload, as many as its length modulo 256, the peers stay as they are, and nothing is written
-- behind the array of pointers.
pub data_captured :
    (M : PeerMap) (peer_garbage : Peer) (stack : List Chan) (fresh : List ℕ) (garbage : LlcHdr)
    (sig_len : List ℕ → ℕ) (now kind rssi : ℕ) (src dst : EtherAddr) (sender : AwdlState)
    (ieee : Ieee80211State) (ctrl payload fcs : List ℕ) (c : Captured M.Table)
    → kind ≤ 3
    → c.node.running ≡ true
    → ieee.fcs ≡ false
    → length fcs ≡ 4
    → let air = (awdl_init_full_data_frame src dst payload sender ieee).0 ++ fcs in
      sig_len ((rssi ∷ ctrl) ++ air) ≡ length air
      → same_addr src c.node.self_address ≡ false
      → (is_group dst || same_addr dst c.node.self_address) ≡ true
      → is_failure (awdl_peer_get M c.peers src).0 ≡ false
      → length fresh ≡ 1518
      → 15 + length payload ≤ 1518
      → let after =
          wifi_sniffer_packet_handler M
            (length (rssi ∷ ctrl))
            peer_garbage
            stack
            fresh
            garbage
            true
            sig_len
            now
            kind
            ((rssi ∷ ctrl) ++ air)
            c in
        (after.host ≡ take (length payload % 256) payload ∷ [])
        × (after.peers ≡ c.peers)
        × (after.overrun ≡ c.overrun)
data_captured M peer_garbage stack fresh garbage sig_len now kind rssi src dst sender ieee ctrl
      payload fcs c low running off four long other mine known size fits =
    let e = data_bytes src dst payload fcs sender ieee off in
    subst
      (λ (xs : List ℕ).
        let after =
          wifi_sniffer_packet_handler M (length (rssi ∷ ctrl)) peer_garbage stack fresh garbage true
            sig_len now kind ((rssi ∷ ctrl) ++ xs) c in
        (after.host ≡ take (length payload % 256) payload ∷ [])
        × (after.peers ≡ c.peers)
        × (after.overrun ≡ c.overrun))
      (sym e)
      (data_given M peer_garbage stack fresh garbage sig_len now kind rssi src dst sender
        (control_of ieee) ctrl payload fcs c low running four
        (omega (arith, subst (λ (xs : List ℕ). sig_len ((rssi ∷ ctrl) ++ xs) ≡ length xs) e long))
        other mine known size fits)
