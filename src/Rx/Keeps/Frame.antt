-- ===== src/Rx/Keeps/Frame.antt =====
-- main/owl/rx.c and main/wifi/capture.c: whole frames, of any bytes.
use esp_owl.Base.{Bool-cases, List, bit_and, inl, inr, not, refl, ℕ, ◌&&◌, ◌==◌, ◌≡◌}
use esp_owl.Base.Int.{pos, ℤ}
use esp_owl.Ethernet.{EtherAddr}
use esp_owl.Channel.{Chan}
use esp_owl.Wire.{buf_len, read_bytes, read_ether_addr, read_le16, read_u8}
use esp_owl.Peers.{Peer}
use esp_owl.Peers.Table.{PeerMap}
use esp_owl.State.{AwdlState}
use esp_owl.Rx.{rx_ignore_from_self, rx_ignore_nopromisc}
use esp_owl.Rx.Action.{RxState}
use esp_owl.Rx.Data.{LlcHdr, strip_checked}
use esp_owl.Rx.Receive.{
  Kind, awdl_rx, dispatch, ieee80211_hdr_len, is_group, kind_of, same_addr, signed_char,
}
use esp_owl.Rx.Keeps.{IsKept, after, after_finish, after_return_if, after_try}
use esp_owl.Rx.Keeps.Action.{action-IsKept}
use esp_owl.Rx.Keeps.Data.{amsdu-IsKept, data-IsKept, strip-IsKept}

module _ (M : PeerMap) (n : AwdlState) (ctrl_len : ℕ) (peer_garbage : Peer) (stack : List Chan)
    (fresh : List ℕ) (llc_garbage : LlcHdr) where
  dispatch-IsKept :
      (fc : ℕ) (rssi : ℤ) (tsft : ℕ) (from to : EtherAddr) (s : RxState M.Table)
      → IsKept M n s
      → IsKept M n
          (dispatch M ctrl_len peer_garbage stack fresh llc_garbage fc rssi tsft from to s).1
  unfolding dispatch
  dispatch-IsKept fc rssi tsft from to s h = go (kind_of fc) refl
    where
      P : RxState M.Table → Type 0
      P = IsKept M n

      go :
          (kind : Kind)
          → kind_of fc ≡ kind
          → P (dispatch M ctrl_len peer_garbage stack fresh llc_garbage fc rssi tsft from to s).1
      go Kind.action e = rw (dispatch, e) (action-IsKept M n peer_garbage stack rssi tsft from s h)
      go Kind.plain e = rw (dispatch, e) (data-IsKept M n fresh llc_garbage from to s h)
      go Kind.unknown e = rw (dispatch, e) h
      go Kind.qos e =
          rw (dispatch, e)
            (after_try P (read_le16 s.frame (pos 0)) _ s h λ qosc _.
              after P (strip_checked M fresh llc_garbage 2 s) _
                (strip-IsKept M n fresh llc_garbage 2 s h)
                λ _ s1 h1. elim (Bool-cases (bit_and qosc 0x0080 == 0)) [
                  | inl one ↦ rw one (data-IsKept M n fresh llc_garbage from to s1 h1)
                  | inr many ↦ rw many (amsdu-IsKept M n fresh llc_garbage (buf_len s1.frame) s1 h1)
                ])

  pub rx-IsKept :
      (tsft : ℕ) (s : RxState M.Table)
      → IsKept M n s
      → IsKept M n (awdl_rx M ctrl_len peer_garbage stack fresh llc_garbage tsft s).1
  unfolding awdl_rx
  rx-IsKept tsft s h =
      let P = IsKept M n in
      after_finish P _ (
        after_try P (read_u8 s.frame (pos 0)) _ s h λ rssi _.
          after P (strip_checked M fresh llc_garbage ctrl_len s) _
            (strip-IsKept M n fresh llc_garbage ctrl_len s h)
            λ _ s1 h1. after_try P (read_bytes s1.frame (pos 0) ieee80211_hdr_len) _ s1 h1 λ _ _.
              after_try P (read_le16 s1.frame (pos 0)) _ s1 h1 λ fc _.
                after_try P (read_ether_addr s1.frame (pos 4)) _ s1 h1 λ to _.
                  after_try P (read_ether_addr s1.frame (pos 10)) _ s1 h1 λ from _.
                    after_return_if P (same_addr from s1.node.self_address) rx_ignore_from_self _ s1
                      h1
                      λ _.
                        after_return_if P
                          (not (is_group to) && not (same_addr to s1.node.self_address))
                          rx_ignore_nopromisc _ s1 h1
                          λ _.
                            after P (strip_checked M fresh llc_garbage ieee80211_hdr_len s1) _
                              (strip-IsKept M n fresh llc_garbage ieee80211_hdr_len s1 h1)
                              λ _ s2 h2. dispatch-IsKept fc (signed_char rssi) tsft from to s2 h2)
