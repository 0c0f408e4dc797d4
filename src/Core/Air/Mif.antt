-- ===== src/Core/Air/Mif.antt =====
-- main/owl/tx.c, rx.c and main/wifi/capture.c: a MIF from the sender to the peers of a receiver.
use esp_owl.Base.{
  List, [], ap, arith, false, length, ltb, refl, some, subst, sym, true, ℕ, ◌&&◌, ◌++◌, ◌+◌, ◌∙◌,
  ◌∷◌, ◌≡◌, ◌≤◌, ◌||◌,
}
use esp_owl.Base.Int.{ℤ}
use esp_owl.Ethernet.{EtherAddr}
use esp_owl.Wire.{Buf}
use esp_owl.Channel.{Chan, chanseq_length}
use esp_owl.Sync.Windows
use esp_owl.Frame.{action_mif}
use esp_owl.State.{AwdlState, Ieee80211State, ieee80211_state_next_sequence_number}
use esp_owl.Election.{awdl_election_is_sync_master}
use esp_owl.Peers.{Peer}
use esp_owl.Peers.Table.{PeerMap, peers_ok}
use esp_owl.Rx.{finish}
use esp_owl.Rx.Action.{RxState, awdl_rx_action, is_too_weak}
use esp_owl.Rx.Data.{LlcHdr}
use esp_owl.Rx.Loop.{Ends}
use esp_owl.Rx.Announce.Mif.{CanAnnounce}
use esp_owl.Rx.Announce.Frame.{MetBy, action_received, clock_set, count_action}
use esp_owl.Rx.Receive.{dispatch, is_group, kind_of, same_addr, signed_char}
use esp_owl.Rx.Receive.Header.{hdr_bytes}
use esp_owl.Tx.Frames.{
  action_tlvs, awdl_init_action, awdl_init_full_action_frame, concat,
  ieee80211_init_awdl_action_hdr, ieee80211_init_awdl_hdr,
}
use esp_owl.Core.Capture.{Captured, max_num_ampdu, to_host, wifi_sniffer_packet_handler}
use esp_owl.Core.Air.{accept_lem, control_of, given, handler_lem, or_false, read_lem, taken}

mif_bytes :
    (started sent : ℕ) (me : AwdlState) (ieee : Ieee80211State) (fcs : List ℕ)
    → ieee.fcs ≡ false
    → (awdl_init_full_action_frame started sent me ieee action_mif).0 ++ fcs
      ≡ hdr_bytes 0x00d0 me.self_address me.dst (control_of ieee)
        ++ (awdl_init_action started action_mif ++ (concat (action_tlvs sent me action_mif) ++ fcs))
unfolding awdl_init_full_action_frame ieee80211_init_awdl_action_hdr ieee80211_init_awdl_hdr
    ieee80211_state_next_sequence_number awdl_init_action
mif_bytes started sent me ieee fcs off = rw off refl

dispatch_action :
    (M : PeerMap) (n : ℕ) (garbage : Peer) (stack : List Chan) (fresh : List ℕ)
    (llc_garbage : LlcHdr) (rssi : ℤ) (now : ℕ) (src dst : EtherAddr) (s : RxState M.Table)
    → finish (dispatch M n garbage stack fresh llc_garbage 0x00d0 rssi now src dst s)
      ≡ awdl_rx_action M garbage stack rssi now src s
unfolding dispatch kind_of
dispatch_action M n garbage stack fresh llc_garbage rssi now src dst s = refl

module _ (M : PeerMap) (garbage : Peer) (stack : List Chan) (fresh : List ℕ) (llc_garbage : LlcHdr)
    (sig_len : List ℕ → ℕ) (now kind rssi started sent : ℕ) (me : AwdlState) (p : Peer)
    (control : ℕ) (ctrl fcs : List ℕ) (c : Captured M.Table) where
  abbrev mif_body : List ℕ
  mif_body = awdl_init_action started action_mif ++ (concat (action_tlvs sent me action_mif) ++ fcs)

  abbrev air : List ℕ
  air = hdr_bytes 0x00d0 me.self_address me.dst control ++ mif_body

  mif_given :
      kind ≤ 3
      → c.node.running ≡ true
      → sig_len ((rssi ∷ ctrl) ++ air) ≡ 24 + length mif_body
      → same_addr me.self_address c.node.self_address ≡ false
      → (is_group me.dst || same_addr me.dst c.node.self_address) ≡ true
      → CanAnnounce me
      → length stack ≡ chanseq_length
      → Windows.IsValid c.node.sync
      → awdl_election_is_sync_master c.node.election p.addr ≡ true
      → M.IsValid c.peers
      → M.get c.peers me.self_address ≡ some p
      → (c.node.filter_rssi && is_too_weak c.node (signed_char rssi) peers_ok) ≡ false
      → length fcs ≡ 4
      → Ends fcs
      → let after =
          wifi_sniffer_packet_handler M
            (length (rssi ∷ ctrl))
            garbage
            stack
            fresh
            llc_garbage
            true
            sig_len
            now
            kind
            ((rssi ∷ ctrl) ++ air)
            c in
        MetBy M now me.self_address me p c.peers after.peers
        × (after.node ≡ clock_set now sent me (count_action c.node))
        × (after.host ≡ [])
        × (after.overrun ≡ c.overrun)
  unfolding to_host
  mif_given low running long other mine can room clock master table known strong four ends =
      let n = length (rssi ∷ ctrl) in
      let src = me.self_address in
      let s =
        taken M garbage stack fresh llc_garbage sig_len now kind rssi 0x00d0 control src me.dst ctrl
          mif_body c in
      let h =
        read_lem M garbage stack fresh llc_garbage sig_len now kind rssi 0x00d0 control src me.dst
          ctrl mif_body c long (omega arith) in
      let whole =
        handler_lem M garbage stack fresh llc_garbage sig_len now kind rssi 0x00d0 control src
          me.dst ctrl mif_body c low running
        ∙ ap (λ (r : ℤ × RxState M.Table). given c.overrun r.1)
            (accept_lem M garbage stack fresh llc_garbage sig_len now kind rssi 0x00d0 control src
                me.dst ctrl mif_body c long (omega arith) other mine
              ∙ dispatch_action M n garbage stack fresh llc_garbage (signed_char rssi) now src
                  me.dst s) in
      let (_, met, node, out) =
        action_received M garbage stack (signed_char rssi) started sent now src me p fcs s can room
          clock master table known strong h.valid h.rest four ends in
      (
        subst (MetBy M now src me p c.peers) (sym (ap (λ (r : Captured M.Table). r.peers) whole))
            met,
        ap (λ (r : Captured M.Table). r.node) whole ∙ node,
        ap (λ (r : Captured M.Table). r.host) whole ∙ ap (to_host true) out,
        ap (λ (r : Captured M.Table). r.overrun) whole
            ∙ ap (λ (xs : List Buf). c.overrun || ltb max_num_ampdu (length xs)) out
            ∙ or_false c.overrun,
      )

-- A MIF as a node sends it without a checksum, which the radio gets with four bytes behind it that
-- do not begin with a TLV, and a header of the driver, which says how long it is, in front of it, is
-- given to a running node. It is not from this node, and is for this node or a group. The sender can
-- announce itself; the receiver has a valid clock, a table in good order with an entry for the
-- sender, the sender for its master, and no objection to the strength of the signal. Then the entry
-- has what the sender has announced, the time, and the mark of a peer that can be valid; the entries
-- of all others are kept; the receiver has measured its clock and counted the frame, and the host
-- gets nothing; nothing is written behind the array of pointers.
pub mif_captured :
    (M : PeerMap) (garbage : Peer) (stack : List Chan) (fresh : List ℕ) (llc_garbage : LlcHdr)
    (sig_len : List ℕ → ℕ) (now kind rssi started sent : ℕ) (me : AwdlState) (p : Peer)
    (ieee : Ieee80211State) (ctrl fcs : List ℕ) (c : Captured M.Table)
    → kind ≤ 3
    → c.node.running ≡ true
    → ieee.fcs ≡ false
    → let air = (awdl_init_full_action_frame started sent me ieee action_mif).0 ++ fcs in
      sig_len ((rssi ∷ ctrl) ++ air) ≡ length air
      → same_addr me.self_address c.node.self_address ≡ false
      → (is_group me.dst || same_addr me.dst c.node.self_address) ≡ true
      → CanAnnounce me
      → length stack ≡ chanseq_length
      → Windows.IsValid c.node.sync
      → awdl_election_is_sync_master c.node.election p.addr ≡ true
      → M.IsValid c.peers
      → M.get c.peers me.self_address ≡ some p
      → (c.node.filter_rssi && is_too_weak c.node (signed_char rssi) peers_ok) ≡ false
      → length fcs ≡ 4
      → Ends fcs
      → let after =
          wifi_sniffer_packet_handler M
            (length (rssi ∷ ctrl))
            garbage
            stack
            fresh
            llc_garbage
            true
            sig_len
            now
            kind
            ((rssi ∷ ctrl) ++ air)
            c in
        MetBy M now me.self_address me p c.peers after.peers
        × (after.node ≡ clock_set now sent me (count_action c.node))
        × (after.host ≡ [])
        × (after.overrun ≡ c.overrun)
mif_captured M garbage stack fresh llc_garbage sig_len now kind rssi started sent me p ieee ctrl fcs
      c low running off long other mine can room clock master table known strong four ends =
    let e = mif_bytes started sent me ieee fcs off in
    subst
      (λ (xs : List ℕ).
        let after =
          wifi_sniffer_packet_handler M (length (rssi ∷ ctrl)) garbage stack fresh llc_garbage true
            sig_len now kind ((rssi ∷ ctrl) ++ xs) c in
        MetBy M now me.self_address me p c.peers after.peers
        × (after.node ≡ clock_set now sent me (count_action c.node))
        × (after.host ≡ [])
        × (after.overrun ≡ c.overrun))
      (sym e)
      (mif_given M garbage stack fresh llc_garbage sig_len now kind rssi started sent me p
        (control_of ieee) ctrl fcs c low running
        (omega (arith, subst (λ (xs : List ℕ). sig_len ((rssi ∷ ctrl) ++ xs) ≡ length xs) e long))
        other mine can room clock master table known strong four ends)
