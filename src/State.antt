-- ===== src/State.antt =====
-- main/owl/state.h and state.c: the state of a node, without the table of its peers and the callbacks.
pub mod Sequence
mod Tests
use esp_owl.Base.{Bool, List, bit_and, false, take, true, ℕ, ◌+◌}
use esp_owl.Base.Int.{negsuc, ℤ}
use esp_owl.Ethernet.{EtherAddr}
use esp_owl.Channel.{Chan, awdl_chanseq_init_static, chan_null, enc_opclass}
use esp_owl.Sync.{SyncState, awdl_sync_state_init, u16}
use esp_owl.Version.{awdl_version, devclass_macos}
use esp_owl.Election.{ElectionState, awdl_election_state_init}
use esp_owl.Peers.{host_name_length_max}

-- `struct awdl_stats`
pub record Stats : Type 0 where
  pub tx_action : ℕ
  pub tx_data : ℕ
  pub tx_data_unicast : ℕ
  pub tx_data_multicast : ℕ
  pub rx_action : ℕ
  pub rx_data : ℕ
  pub rx_unknown : ℕ

-- `struct awdl_channel_state`
pub record ChannelState : Type 0 where
  pub enc : ℕ
  pub sequence : List Chan
  pub master : Chan
  pub current : Chan

-- `struct awdl_state`. `name` holds the bytes before the zero that ends it.
pub record AwdlState : Type 0 where
  pub self_address : EtherAddr
  pub running : Bool
  pub name : List ℕ
  pub version : ℕ
  pub dev_class : ℕ
  pub sequence_number : ℕ
  pub psf_interval : ℕ
  pub dst : EtherAddr
  pub filter_rssi : Bool
  pub rssi_threshold : ℤ
  pub rssi_grace : ℤ
  pub election : ElectionState
  pub sync : SyncState
  pub channel : ChannelState
  pub stats : Stats

abbrev pub ether_broadcast : EtherAddr
ether_broadcast = record {
  octet0 = 0xff;
  octet1 = 0xff;
  octet2 = 0xff;
  octet3 = 0xff;
  octet4 = 0xff;
  octet5 = 0xff;
}

abbrev pub psf_interval_master_tu : ℕ
psf_interval_master_tu = 110

abbrev pub rssi_threshold_default : ℤ
rssi_threshold_default = negsuc 64

abbrev pub rssi_grace_default : ℤ
rssi_grace_default = negsuc 4

unfoldable pub awdl_stats_init : Stats
awdl_stats_init = record {
  tx_action = 0;
  tx_data = 0;
  tx_data_unicast = 0;
  tx_data_multicast = 0;
  rx_action = 0;
  rx_data = 0;
  rx_unknown = 0;
}

-- `strncpy` of at most 64 bytes of the host name; the callbacks are cleared, and `running` stays.
unfoldable pub awdl_init_state : AwdlState → List ℕ → EtherAddr → Chan → ℕ → AwdlState
unfolding awdl_version awdl_sync_state_init awdl_chanseq_init_static awdl_election_state_init
    awdl_stats_init
awdl_init_state state hostname self chan now = record {
  self_address = self;
  running = state.running;
  name = take host_name_length_max hostname;
  version = awdl_version 3 4;
  dev_class = devclass_macos;
  sequence_number = 0;
  psf_interval = psf_interval_master_tu;
  dst = ether_broadcast;
  filter_rssi = true;
  rssi_threshold = rssi_threshold_default;
  rssi_grace = rssi_grace_default;
  election = awdl_election_state_init state.election self;
  sync = awdl_sync_state_init now;
  channel = record {
    enc = enc_opclass;
    sequence = awdl_chanseq_init_static chan;
    master = chan;
    current = chan_null;
  };
  stats = awdl_stats_init;
}

-- The number before the increment, and the state after it.
unfoldable pub awdl_state_next_sequence_number : AwdlState → ℕ × AwdlState
awdl_state_next_sequence_number state =
    (state.sequence_number, record state { sequence_number = u16 (state.sequence_number + 1) })

-- `struct ieee80211_state`
pub record Ieee80211State : Type 0 where
  pub sequence_number : ℕ
  pub fcs : Bool

unfoldable pub ieee80211_init_state : Ieee80211State
ieee80211_init_state = record { sequence_number = 0; fcs = false }

unfoldable pub ieee80211_state_next_sequence_number : Ieee80211State → ℕ × Ieee80211State
ieee80211_state_next_sequence_number state = (
  state.sequence_number,
  record state { sequence_number = bit_and (u16 (state.sequence_number + 1)) 0x0fff },
)
