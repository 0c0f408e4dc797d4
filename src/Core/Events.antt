-- ===== src/Core/Events.antt =====
-- main/wifi/capture.c, core.c and awdl.c: the start of the node, and everything that happens to it.
pub mod Sound
pub mod Reach
mod Tests
use esp_owl.Base.{Bool, List, [], false, if◌then◌else◌, none, true, ℕ, ◌+◌, ◌++◌, ◌∷◌}
use esp_owl.Ethernet.{EtherAddr}
use esp_owl.Channel.{Chan, chan_opclass_6}
use esp_owl.State.{AwdlState, awdl_init_state, ieee80211_init_state}
use esp_owl.Peers.{Peer}
use esp_owl.Peers.Table.Hashed.{awdl_peers_init, hashed}
use esp_owl.Peers.Table.Keys.{address_keys}
use esp_owl.Rx.Data.{LlcHdr}
use esp_owl.CircularBuffer.{circular_buf_init}
use esp_owl.Core.Daemon.{
  Daemon, Radio, awdl_send_mif, awdl_send_multicast, awdl_send_psf, awdl_send_unicast,
  awdl_switch_channel, awdl_transmit,
}
use esp_owl.Core.Clean.{awdl_clean_peers}
use esp_owl.Core.Capture.{Captured, wifi_sniffer_packet_handler}
use esp_owl.Core.Air.Any.{Air}

-- `running = false`, if the interface is there. The timers that it stops are the platform's.
unfoldable pub awdl_disable : Bool → AwdlState → AwdlState
awdl_disable has_netif state = if has_netif then record state { running = false } else state

-- `PEERS_DEFAULT_TIMEOUT` and `PEERS_DEFAULT_CLEAN_INTERVAL`
abbrev pub peers_default_timeout : ℕ
peers_default_timeout = 2000000

abbrev pub peers_default_clean_interval : ℕ
peers_default_clean_interval = 1000000

-- A callback with the times that it reads, in order, and what it is given. A packet comes with the
-- variable `is_multicast` as it was before.
pub data Event : Type 0 where
  captured : Air → Event
  psf : ℕ → ℕ → Event
  mif : ℕ → ℕ → ℕ → Event
  unicast multicast channel clean : ℕ → Event
  packet : Bool → List ℕ → Event
  disable : Bool → Event

-- What is not the node's own: the hash of an address, the memory that `calloc` has, the driver's
-- header and its length field, memory that is not initialised, and lwIP's test of an address.
pub record Platform : Type 0 where
  pub hash : EtherAddr → ℕ
  pub calloc : ℕ → Bool
  pub fuel : ℕ
  pub ctrl_len : ℕ
  pub peer_garbage : Peer
  pub stack : List Chan
  pub fresh : List ℕ
  pub llc_garbage : LlcHdr
  pub has_netif : Bool
  pub sig_len : List ℕ → ℕ
  pub dst_garbage : EtherAddr
  pub is_multicast_addr : List ℕ → Bool
  pub alloc : ℕ → List ℕ

module _ (p : Platform) where
  abbrev pub Node : Type 0
  Node = Daemon (hashed p.hash p.calloc p.fuel)

  -- The state that wifi_sniffer_init sets up, in memory that holds `garbage`. The name is "test".
  unfoldable pub wifi_sniffer_init : EtherAddr → ℕ → Node → Node
  unfolding awdl_init_state awdl_peers_init ieee80211_init_state circular_buf_init
  wifi_sniffer_init mac now garbage =
      let name = b't' ∷ b'e' ∷ b's' ∷ b't' ∷ [] in
      let state = awdl_init_state garbage.radio.node name mac chan_opclass_6 now in
      record {
        radio = record {
          node = record state { filter_rssi = false };
          ieee = ieee80211_init_state;
          sent = [];
          host = [];
        };
        peers = awdl_peers_init;
        next = none;
        tx_queue = circular_buf_init garbage.tx_queue 16;
      }

  abbrev pub receives : Air → (d : Node) → Captured (hashed p.hash p.calloc p.fuel).Table
  receives a d =
      let M = hashed p.hash p.calloc p.fuel in
      let before : Captured M.Table = record {
        node = d.radio.node;
        peers = d.peers;
        host = [];
        overrun = false;
      } in
      wifi_sniffer_packet_handler M p.ctrl_len p.peer_garbage p.stack p.fresh p.llc_garbage
        p.has_netif p.sig_len a.now a.type a.buff before

  abbrev pub on_captured : Air → Node → Node
  on_captured a d =
      let after = receives a d in
      record d {
        radio = record d.radio { node = after.node; host = d.radio.host ++ after.host };
        peers = after.peers;
      }

  abbrev pub on_clean : ℕ → Node → Node
  on_clean now d =
      let (left, elected, time) =
        awdl_clean_peers (address_keys p.hash) now peers_default_timeout
          peers_default_clean_interval d.radio.node.election d.peers in
      record d {
        radio = record d.radio { node = record d.radio.node { election = elected } };
        peers = left;
      }

  abbrev pub happens : Event → Node → Node
  happens (captured a) d = on_captured a d
  happens (psf started now) d = record d { radio = awdl_send_psf started now d.radio }
  happens (mif now started later) d = record d {
    radio = (awdl_send_mif now started later d.radio).0;
  }
  happens (unicast now) d =
      (awdl_send_unicast (hashed p.hash p.calloc p.fuel) p.dst_garbage now d).0
  happens (multicast now) d = (awdl_send_multicast (hashed p.hash p.calloc p.fuel) now d).0
  happens (channel now) d = record d {
    radio = record d.radio { node = (awdl_switch_channel now d.radio.node).0 };
  }
  happens (clean now) d = on_clean now d
  happens (packet stack bytes) d =
      (awdl_transmit (hashed p.hash p.calloc p.fuel) p.is_multicast_addr stack p.alloc bytes d).1
  happens (disable has_netif) d = record d {
    radio = record d.radio { node = awdl_disable has_netif d.radio.node };
  }
