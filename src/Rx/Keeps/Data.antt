-- ===== src/Rx/Keeps/Data.antt =====
-- main/owl/rx.c: data frames and aggregates, of any bytes.
use esp_owl.Base.{Bool-cases, List, ap, false, inl, inr, ltb, not, suc, zero, ℕ, ◌+◌}
use esp_owl.Base.Int.{ltb_ℤ, pos}
use esp_owl.Ethernet.{EtherAddr}
use esp_owl.Wire.{Buf, buf_data, buf_len, buf_strip, checked, read_be16, read_ether_addr}
use esp_owl.Wire.Bytes.{HasBytes, checked-HasBytes, data-HasBytes, strip-HasBytes, take-HasBytes}
use esp_owl.Sync.{u64}
use esp_owl.Peers.Table.{PeerMap, awdl_peer_get, is_failure}
use esp_owl.State.{AwdlState}
use esp_owl.Rx.{finish, rx_ignore_peer, rx_too_short, rx_unexpected_format}
use esp_owl.Rx.Action.{RxState}
use esp_owl.Rx.Data.{
  LlcHdr, awdl_data_len, awdl_rx_data, awdl_rx_data_amsdu, awdl_valid_llc_header, llc_hdr_len,
  padding, rx_part, strip_checked, subframe,
}
use esp_owl.Rx.Keeps.{IsKept, after, after_finish, after_return_if, after_try}

module _ (M : PeerMap) (n : AwdlState) (fresh : List ℕ) (garbage : LlcHdr) where
  -- A state that has another frame.
  framed :
      (s : RxState M.Table) (frame : Buf)
      → IsKept M n s
      → HasBytes frame
      → IsKept M n (record s { frame = frame })
  framed s frame h bytes = record { table = h.table; bytes = bytes; node = h.node }

  pub data-IsKept :
      (src dst : EtherAddr) (s : RxState M.Table)
      → IsKept M n s
      → IsKept M n (awdl_rx_data M fresh garbage src dst s).1
  unfolding awdl_rx_data
  data-IsKept src dst s h =
      let P = IsKept M n in
      let counted : AwdlState = record s.node {
        stats = record s.node.stats { rx_data = u64 (s.node.stats.rx_data + 1) };
      } in
      let s1 : RxState M.Table = record s { node = counted } in
      let h1 : P s1 = record {
        table = h.table;
        bytes = h.bytes;
        node = record {
          clock = h.node.clock;
          rest = ap (λ (m : AwdlState). record m { stats = counted.stats }) h.node.rest;
        };
      } in
      let b2 = (buf_strip s.frame (pos llc_hdr_len)).1 in
      let bytes2 = strip-HasBytes s.frame llc_hdr_len h.bytes in
      let s2 : RxState M.Table = record s1 { frame = b2 } in
      let h2 : P s2 = framed s1 b2 h1 bytes2 in
      let b3 = (buf_strip b2 (pos awdl_data_len)).1 in
      let bytes3 = take-HasBytes b3 4 (strip-HasBytes b2 awdl_data_len bytes2) in
      after_return_if P (is_failure (awdl_peer_get M s.peers src).0) rx_ignore_peer _ s1 h1 λ _.
        after_return_if P (not (awdl_valid_llc_header garbage s.frame)) rx_unexpected_format _ s1 h1
          λ _. after_return_if P (ltb (buf_len b2) awdl_data_len) rx_too_short _ s2 h2 λ _.
            after_try P (read_be16 b2 (pos 6)) _ s2 h2
              λ type _. record { table = h.table; bytes = bytes3; node = h1.node }

  pub strip-IsKept :
      (count : ℕ) (s : RxState M.Table)
      → IsKept M n s
      → IsKept M n (strip_checked M fresh garbage count s).1
  strip-IsKept count s h =
      after_try (IsKept M n) (checked (buf_strip s.frame (pos count))) _ s h
        λ rest e. framed s rest h (checked-HasBytes s.frame rest count h.bytes e)

  subframe-IsKept : (s : RxState M.Table) → IsKept M n s → IsKept M n (subframe M fresh garbage s).1
  unfolding subframe rx_part
  subframe-IsKept s h =
      let P = IsKept M n in
      after_try P (read_ether_addr s.frame (pos 0)) _ s h λ dst _.
        after_try P (read_ether_addr s.frame (pos 6)) _ s h λ src _.
          after_try P (read_be16 s.frame (pos 12)) _ s h λ len _.
            after P (strip_checked M fresh garbage 14 s) _ (strip-IsKept 14 s h) λ _ s1 h1.
              after_return_if P (ltb (buf_len s1.frame) len) rx_too_short _ s1 h1 λ _.
                let inner : Buf = record {
                  bytes = buf_data s1.frame;
                  off = 0;
                  len = len;
                  owned = false;
                } in
                let s2 : RxState M.Table = record s1 { frame = inner } in
                let h2 = framed s1 inner h1 (data-HasBytes s1.frame h1.bytes) in
                let done = finish (awdl_rx_data M fresh garbage src dst s2) in
                let s4 : RxState M.Table = record done.1 { frame = s1.frame } in
                let h4 : P s4 =
                  framed done.1 s1.frame
                    (after_finish P (awdl_rx_data M fresh garbage src dst s2)
                      (data-IsKept src dst s2 h2))
                    h1.bytes in
                after_return_if P (ltb_ℤ done.0 (pos 0)) done.0 _ s4 h4 λ _.
                  after P (strip_checked M fresh garbage len s4) _ (strip-IsKept len s4 h4)
                    λ _ s5 h5. elim (Bool-cases (ltb 0 (buf_len s5.frame))) [
                      | inl e ↦ rw e (strip-IsKept (padding M fresh garbage len) s5 h5)
                      | inr e ↦ rw e h5
                    ]

  pub amsdu-IsKept :
      (rounds : ℕ) (s : RxState M.Table)
      → IsKept M n s
      → IsKept M n (awdl_rx_data_amsdu M fresh garbage rounds s).1
  unfolding awdl_rx_data_amsdu
  amsdu-IsKept zero s h = h
  amsdu-IsKept (suc rounds) s h = elim (Bool-cases (ltb 0 (buf_len s.frame))) [
    | inl e ↦
        rw (awdl_rx_data_amsdu, e)
          (after (IsKept M n) (subframe M fresh garbage s) _ (subframe-IsKept s h)
            λ _ s' h'. amsdu-IsKept rounds s' h')
    | inr e ↦ rw (awdl_rx_data_amsdu, e) h
  ]
