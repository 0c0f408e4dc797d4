-- ===== src/Rx/Receive/Accept.antt =====
-- main/owl/rx.c: `awdl_rx` on a frame that a node sends, by its addresses and its kind.
use esp_owl.Base.{Bool-cases, List, if◌then◌else◌, inl, inr, not, refl, ℕ, ◌&&◌, ◌≡◌}
use esp_owl.Ethernet.{EtherAddr}
use esp_owl.Channel.{Chan}
use esp_owl.Peers.{Peer}
use esp_owl.Peers.Table.{PeerMap}
use esp_owl.Rx.{finish, rx_ignore_from_self, rx_ignore_nopromisc}
use esp_owl.Rx.Action.{RxState}
use esp_owl.Rx.Data.{LlcHdr}
use esp_owl.Rx.Receive.{awdl_rx, dispatch, is_group, same_addr, signed_char}
use esp_owl.Rx.Receive.Header.{HdrRead, behind}

-- The state behind both headers.
abbrev pub inner : {T : Type 0} → ℕ → RxState T → RxState T
inner ctrl_len s = record s { frame = behind 24 (behind ctrl_len s.frame) }

module _ (M : PeerMap) (ctrl_len : ℕ) (peer_garbage : Peer) (stack : List Chan) (fresh : List ℕ)
    (llc_garbage : LlcHdr) (tsft : ℕ) (start : RxState M.Table) (rssi type : ℕ)
    (src dst : EtherAddr) (body : List ℕ) where
  abbrev pub outer : RxState M.Table
  outer = record start { frame = behind ctrl_len start.frame }

  pub awdl_rx_hdr :
      HdrRead start.frame ctrl_len rssi type src dst body
      → awdl_rx M ctrl_len peer_garbage stack fresh llc_garbage tsft start ≡ (
          if same_addr src start.node.self_address
          then (rx_ignore_from_self, outer)
          else if not (is_group dst) && not (same_addr dst start.node.self_address)
          then (rx_ignore_nopromisc, outer)
          else finish (
              dispatch M ctrl_len peer_garbage stack fresh llc_garbage type
                (signed_char rssi)
                tsft
                src
                dst
                (inner ctrl_len start)))
  unfolding awdl_rx
  awdl_rx_hdr h = elim (Bool-cases (same_addr src start.node.self_address)) [
    | inl e ↦ rw (awdl_rx, h.first, h.ctrl, h.whole, h.control, h.to, h.from, e) refl
    | inr e ↦
        elim (Bool-cases (not (is_group dst) && not (same_addr dst start.node.self_address))) [
          | inl f ↦ rw (awdl_rx, h.first, h.ctrl, h.whole, h.control, h.to, h.from, e, f) refl
          | inr f ↦
              rw (awdl_rx, h.first, h.ctrl, h.whole, h.control, h.to, h.from, e, f, h.hdr) refl
        ]
  ]
