-- ===== src/Rx/Tests.antt =====
-- A node that announces itself, and one that hears it.
use esp_owl.Rx.{rx_ok}
use esp_owl.Base.{List, [], arith, drop, false, refl, replicate, true, ℕ, ◌∷◌, ◌≡◌}
use esp_owl.Ethernet.{EtherAddr, compare_ether_addr}
use esp_owl.Base.Int.{pos}
use esp_owl.Wire.{buf_strip}
use esp_owl.Channel.{Chan, chan_null, chan_opclass_6, enc_opclass}
use esp_owl.Sync.{SyncState, awdl_sync_current_eaw, awdl_sync_next_aw_tu}
use esp_owl.Sync.Windows.{IsValid}
use esp_owl.Election.{ElectionState, awdl_election_is_sync_master}
use esp_owl.Peers.{Peer}
use esp_owl.State.{AwdlState, ether_broadcast, rssi_grace_default, rssi_threshold_default}
use esp_owl.Rx.Tlvs.{awdl_handle_sync_params_tlv}
use esp_owl.Rx.Action.{handle_tlvs}
use esp_owl.Rx.Announce.{tlv_buf}
use esp_owl.Rx.Announce.Clock.{clock_adopted}
use esp_owl.Rx.Announce.Mif.{CanAnnounce}
use esp_owl.Rx.Loop.{TlvList, leave, fold_tlvs, handle_tlvs-encode, handle_tlvs_enough}
use esp_owl.Tx.Tlvs.{awdl_init_sync_params_tlv}

abbrev pub node : ℕ → EtherAddr
node n = record { octet0 = 2; octet1 = 0; octet2 = 0; octet3 = 0; octet4 = 0; octet5 = n }

-- The election of a node n that follows node 1.
abbrev pub follower : ℕ → ElectionState
follower n = record {
  master_addr = node 1;
  sync_addr = node 1;
  self_addr = node n;
  height = 1;
  master_metric = 600;
  self_metric = 60;
  master_counter = 70000;
  self_counter = 3;
}

abbrev pub clock : ℕ → ℕ → SyncState
clock counter updated = record {
  aw_counter = counter;
  last_update = updated;
  aw_period = 16;
  presence_mode = 4;
  meas_err = 0;
  meas_total = 0;
}

abbrev pub state_of : ℕ → SyncState → AwdlState
state_of n sync = record {
  self_address = node n;
  running = true;
  name = b'o' ∷ b'w' ∷ b'l' ∷ [];
  version = 52;
  dev_class = 1;
  sequence_number = 0;
  psf_interval = 110;
  dst = ether_broadcast;
  filter_rssi = true;
  rssi_threshold = rssi_threshold_default;
  rssi_grace = rssi_grace_default;
  election = follower n;
  sync = sync;
  channel = record {
    enc = enc_opclass;
    sequence = replicate 16 chan_opclass_6;
    master = chan_opclass_6;
    current = chan_null;
  };
  stats = record {
    tx_action = 0;
    tx_data = 0;
    tx_data_unicast = 0;
    tx_data_multicast = 0;
    rx_action = 0;
    rx_data = 0;
    rx_unknown = 0;
  };
}

abbrev pub me : AwdlState
me = state_of 1 (clock 100 5000)

abbrev pub listener : AwdlState
listener = state_of 2 (clock 0 0)

abbrev pub me_valid : IsValid me.sync
me_valid = omega arith

abbrev pub listener_valid : IsValid listener.sync
listener_valid = omega arith

pub me_can : CanAnnounce me
me_can = record {
  election = omega arith;
  enc = refl;
  sequence = refl;
  name = omega arith;
  version = omega arith;
  dev_class = omega arith;
}

abbrev pub known : Peer
known = record {
  addr = node 1;
  last_update = 0;
  election = follower 1;
  sequence = replicate 16 chan_null;
  sync_offset = 0;
  name = [];
  country_code = [];
  infra_addr = node 0;
  version = 0;
  devclass = 0;
  supports_v2 = false;
  sent_mif = false;
  is_valid = false;
}

abbrev pub stack : List Chan
stack = replicate 16 chan_null

pub master : awdl_election_is_sync_master listener.election known.addr ≡ true
unfolding awdl_election_is_sync_master compare_ether_addr
master = refl

clock_adopted_example :
    let heard =
      awdl_handle_sync_params_tlv known
        (tlv_buf (drop 3 (awdl_init_sync_params_tlv 50000 me)))
        listener
        800000 in
    (heard.0 ≡ rx_ok)
    × (awdl_sync_next_aw_tu 800000 heard.1.sync ≡ awdl_sync_next_aw_tu 50000 me.sync)
    × (awdl_sync_current_eaw 800000 heard.1.sync ≡ awdl_sync_current_eaw 50000 me.sync)
    × IsValid heard.1.sync
clock_adopted_example =
    clock_adopted known me listener 50000 800000 me_valid listener_valid (omega arith) master

-- The bytes of a checksum, which begin no TLV.
abbrev pub checksum : List ℕ
checksum = 0 ∷ 7 ∷ 0 ∷ 9 ∷ []

-- A version and a TLV that nothing handles, behind each other.
abbrev two_tlvs : TlvList
two_tlvs = (21, 52 ∷ 8 ∷ []) ∷ (6, 1 ∷ []) ∷ []

handle_tlvs-encode_example :
    let frame = tlv_buf (21 ∷ 2 ∷ 0 ∷ 52 ∷ 8 ∷ 6 ∷ 1 ∷ 0 ∷ 1 ∷ 0 ∷ []) in
    handle_tlvs 3 stack 0 known frame listener
    ≡ leave (buf_strip frame (pos 9)).1 (fold_tlvs stack 0 two_tlvs known listener)
handle_tlvs-encode_example =
    handle_tlvs-encode 3 stack 0 two_tlvs (0 ∷ []) known
      (tlv_buf (21 ∷ 2 ∷ 0 ∷ 52 ∷ 8 ∷ 6 ∷ 1 ∷ 0 ∷ 1 ∷ 0 ∷ [])) listener
      (record { fits = omega arith }) refl (omega arith, (omega arith, _)) tt (omega arith)

handle_tlvs_enough_example :
    handle_tlvs 10 stack 0 known (tlv_buf (21 ∷ 2 ∷ 0 ∷ 52 ∷ 8 ∷ 6 ∷ 1 ∷ 0 ∷ 1 ∷ 0 ∷ [])) listener
    ≡ handle_tlvs 1500 stack 0 known
        (tlv_buf (21 ∷ 2 ∷ 0 ∷ 52 ∷ 8 ∷ 6 ∷ 1 ∷ 0 ∷ 1 ∷ 0 ∷ []))
        listener
handle_tlvs_enough_example =
    handle_tlvs_enough 10 1500 stack 0 known
      (tlv_buf (21 ∷ 2 ∷ 0 ∷ 52 ∷ 8 ∷ 6 ∷ 1 ∷ 0 ∷ 1 ∷ 0 ∷ [])) listener
      (record { fits = omega arith }) (omega arith) (omega arith)
