-- ===== src/Rx/Receive.antt =====
-- main/owl/rx.c: `awdl_rx`, which looks at the header of a received frame and hands it on.
pub mod Header
pub mod Accept
use esp_owl.Rx.{
  Statement, current, finish, return, return_if, rx_ignore_from_self, rx_ignore_nopromisc,
  rx_unexpected_type, try, ◌>>=◌, ◌>>◌,
}
use esp_owl.Base.{Bool, List, bit_and, if◌then◌else◌, ltb, not, ℕ, ◌&&◌, ◌==◌, ◌||◌}
use esp_owl.Base.Int.{pos, sub_ℕ, ℤ}
use esp_owl.Ethernet.{EtherAddr, octets}
use esp_owl.Wire.{buf_len, read_bytes, read_ether_addr, read_le16, read_u8}
use esp_owl.Channel.{Chan}
use esp_owl.Peers.{Peer}
use esp_owl.Peers.Table.{PeerMap}
use esp_owl.Rx.Header.{memcmp_eq}
use esp_owl.Rx.Action.{RxState, awdl_rx_action}
use esp_owl.Rx.Data.{LlcHdr, awdl_rx_data, awdl_rx_data_amsdu, strip_checked}

-- `sizeof(wifi_ieee80211_hdr_t)`
abbrev pub ieee80211_hdr_len : ℕ
ieee80211_hdr_len = 24

-- `signed char`
unfoldable pub signed_char : ℕ → ℤ
signed_char v = if ltb v 128 then pos v else sub_ℕ v 256

-- The bits of the type, the subtype and the retry flag.
abbrev pub kind_mask : ℕ
kind_mask = 0x08fc

pub data Kind : Type 0 where
  action : Kind
  qos : Kind
  plain : Kind
  unknown : Kind

-- The `switch`: a QoS data frame, with or without the retry flag, is taken alike.
unfoldable pub kind_of : ℕ → Kind
kind_of fc =
    let kind : ℕ = bit_and fc kind_mask in
    if kind == 0x00d0
    then action
    else if kind == 0x0088 || kind == 0x0888
    then qos
    else if kind == 0x0008
    then plain
    else unknown

-- `octet & 0x01`
unfoldable pub is_group : EtherAddr → Bool
is_group a = bit_and a.octet0 1 == 1

abbrev pub same_addr : EtherAddr → EtherAddr → Bool
same_addr a b = memcmp_eq (octets a) (octets b)

-- `ctrl_len` is the size of the driver's header `wifi_pkt_rx_ctrl_t`, of which only the first byte
-- is read; `tsft` is the time; the others are the contents of memory that is not initialised.
module _ (M : PeerMap) (ctrl_len : ℕ) (peer_garbage : Peer) (stack : List Chan) (fresh : List ℕ)
    (llc_garbage : LlcHdr) where
  abbrev on_data : EtherAddr → EtherAddr → Statement (RxState M.Table) Bool
  on_data = awdl_rx_data M fresh llc_garbage

  abbrev strip_or_return : ℕ → Statement (RxState M.Table) Bool
  strip_or_return n = strip_checked M fresh llc_garbage n

  unfoldable pub dispatch : ℕ → ℤ → ℕ → EtherAddr → EtherAddr → Statement (RxState M.Table) Bool
  unfolding awdl_rx_data awdl_rx_data_amsdu awdl_rx_action
  dispatch fc rssi tsft from to = elim (kind_of fc) [
    | action ↦ λ s.
        let (code, s') = awdl_rx_action M peer_garbage stack rssi tsft from s in (return code, s')
    | qos ↦ do
      s ← current
      qosc ← try (read_le16 s.frame (pos 0))
      strip_or_return 2
      rest ← current
      let aggregate = awdl_rx_data_amsdu M fresh llc_garbage (buf_len rest.frame)
      (if bit_and qosc 0x0080 == 0 then on_data from to else aggregate)
    | plain ↦ on_data from to
    | unknown ↦ λ s. (return rx_unexpected_type, s)
  ]

  unfoldable pub awdl_rx : ℕ → RxState M.Table → ℤ × RxState M.Table
  unfolding dispatch
  awdl_rx tsft start = finish (handler start)
    where
      handler : Statement (RxState M.Table) Bool
      handler = do
        rssi ← try (read_u8 start.frame (pos 0))
        strip_or_return ctrl_len
        s ← current
        try (read_bytes s.frame (pos 0) ieee80211_hdr_len)
        fc ← try (read_le16 s.frame (pos 0))
        to ← try (read_ether_addr s.frame (pos 4))
        from ← try (read_ether_addr s.frame (pos 10))
        return_if (same_addr from s.node.self_address) rx_ignore_from_self
        return_if (not (is_group to) && not (same_addr to s.node.self_address)) rx_ignore_nopromisc
        strip_or_return ieee80211_hdr_len
        dispatch fc (signed_char rssi) tsft from to
