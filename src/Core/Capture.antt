-- ===== src/Core/Capture.antt =====
-- main/wifi/capture.c: what the Wi-Fi driver calls with each frame that it has captured.
use esp_owl.Base.{
  Bool, List, [], drop, get_or, if◌then◌else◌, length, ltb, none, not, some, take, ℕ, ◌+◌, ◌||◌,
  ◌∷◌,
}
use esp_owl.Base.Int.{pos}
use esp_owl.Wire.{Buf, buf_data, buf_new_const}
use esp_owl.Channel.{Chan}
use esp_owl.State.{AwdlState}
use esp_owl.Peers.{Peer}
use esp_owl.Peers.Table.{PeerMap}
use esp_owl.Rx.Header.{memcmp_eq}
use esp_owl.Rx.Action.{RxState}
use esp_owl.Rx.Data.{LlcHdr}
use esp_owl.Rx.Receive.{awdl_rx}

-- `struct awdl_packet` on the bytes of an Ethernet frame: the length at 14, the data from 15 on.
-- The array of a frame from awdl_rx has 1518 bytes, more than a length of one byte reaches.
abbrev pub packet_data : List ℕ → List ℕ
packet_data bytes = take (get_or bytes 14 0) (drop 15 bytes)

-- `data_start < data`: of the frames that awdl_rx hands on, the first is given to the host, if
-- the interface is there.
unfoldable pub to_host : Bool → List Buf → List (List ℕ)
to_host has_netif [] = []
to_host has_netif (first ∷ rest) = if has_netif then packet_data (buf_data first) ∷ [] else []

-- `MAX_NUM_AMPDU`
abbrev pub max_num_ampdu : ℕ
max_num_ampdu = 16

-- What the driver can change: the node, its peers, and the packets that the host gets. `overrun`
-- says that awdl_rx has written behind the array `data_arr` of 16 pointers, which nothing keeps it
-- from; what the code does from there on is undefined, and the other fields then say nothing of it.
pub record Captured (Table : Type 0) : Type 0 where
  pub node : AwdlState
  pub peers : Table
  pub host : List (List ℕ)
  pub overrun : Bool

-- `awdl_data_mac`
abbrev pub awdl_data_mac : List ℕ
awdl_data_mac = 0x00 ∷ 0x25 ∷ 0x00 ∷ 0xff ∷ 0x94 ∷ 0x73 ∷ []

-- The parameters of awdl_rx; `sig_len` is the field of the driver's header.
module _ (M : PeerMap) (ctrl_len : ℕ) (peer_garbage : Peer) (stack : List Chan) (fresh : List ℕ)
    (llc_garbage : LlcHdr) (has_netif : Bool) (sig_len : List ℕ → ℕ) where
  -- The result of awdl_rx is only logged.
  unfoldable pub awdl_receive_frame : ℕ → List ℕ → ℕ → Captured M.Table → Captured M.Table
  awdl_receive_frame now buf len c = elim (buf_new_const buf (pos len)) [
    | none ↦ c
    | some frame ↦
        let start : RxState M.Table = record {
          frame = frame;
          node = c.node;
          peers = c.peers;
          out = [];
        } in
        let (result, s) = awdl_rx M ctrl_len peer_garbage stack fresh llc_garbage now start in
        record {
          node = s.node;
          peers = s.peers;
          host = to_host has_netif s.out;
          overrun = c.overrun || ltb max_num_ampdu (length s.out);
        }
  ]

  -- The address at 16 in the header of the frame, behind the driver's.
  unfoldable pub wifi_sniffer_packet_handler : ℕ → ℕ → List ℕ → Captured M.Table → Captured M.Table
  wifi_sniffer_packet_handler now type buff c =
      let addr3 = take 6 (drop (ctrl_len + 16) buff) in
      if ltb 3 type
      then c
      else if not (memcmp_eq addr3 awdl_data_mac)
      then c
      else if c.node.running
      then awdl_receive_frame now buff (ctrl_len + sig_len buff) c
      else c
