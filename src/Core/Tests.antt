-- ===== src/Core/Tests.antt =====
-- main/wifi/core.c and awdl.c on a node with one peer.
use esp_owl.Base.{
  Bool, List, Ordering, [], arith, false, get_or, length, length-replicate, none, refl, replicate,
  some, true, ℕ, ◌%◌, ◌++◌, ◌+◌, ◌==◌, ◌∷◌, ◌≡◌, ◌≢◌, ◌≤◌, ◌⊎◌,
}
use esp_owl.Base.Int.{pos}
use esp_owl.Ethernet.{EtherAddr, IsAddr, compare_ether_addr, octets}
use esp_owl.Wire.{Buf, read_ether_addr}
use esp_owl.Channel.{awdl_chan_num}
use esp_owl.State.{ieee80211_init_state}
use esp_owl.Schedule.{awdl_can_send_unicast_in, awdl_same_channel_as_peer, unicast_guard_tu}
use esp_owl.Peers.{Peer}
use esp_owl.CircularBuffer.{CircularBuf, circular_buf_full}
use esp_owl.Rx.Tests.{me, me_valid}
use esp_owl.HashMap.{hashmap_get}
use esp_owl.Peers.Table.Tests.{
  Entries, entries, heard_at_nine, heard_at_nine-IsValid, last_octet, node, nobody, ready,
  with_entry,
}
use esp_owl.Election.Run.{Follows, Leads}
use esp_owl.Core.Timers.{send_unicast-rearm, slot_at, slot_number, switch_channel_lem}
use esp_owl.Core.Clean.{awdl_clean_peers, clean_peers-elects}
use esp_owl.Peers.Table.Keys.{address_keys}
use esp_owl.Core.Deliver.{data_frame, transmit-send_unicast}
use esp_owl.Sync.{
  awdl_sync_current_aw, awdl_sync_current_eaw, awdl_sync_next_aw_us, ieee80211_tu_to_usec,
}
use esp_owl.Core.{clean_mac, ether_addr_to_in6_addr, parse_mac_address}
use esp_owl.Core.Daemon.{
  Daemon, Radio, awdl_send_unicast, awdl_switch_channel, awdl_transmit, rearm_time, send_next,
  try_unicast, unicast_step,
}

-- The IPv6 address, and texts with and without separators.
conversions :
    (ether_addr_to_in6_addr (node 7)
      ≡ 0xfe ∷ 0x80 ∷ 0 ∷ 0 ∷ 0 ∷ 0 ∷ 0 ∷ 0 ∷ 0 ∷ 0 ∷ 0 ∷ 0xff ∷ 0xfe ∷ 0 ∷ 0 ∷ 7 ∷ [])
    × (parse_mac_address
          (b'0' ∷ b'2' ∷ b'0' ∷ b'0' ∷ b'0' ∷ b'0' ∷ b'0' ∷ b'0' ∷ b'0' ∷ b'0' ∷ b'0' ∷ b'7' ∷ [])
        ≡ some (node 7))
    × (parse_mac_address (b'0' ∷ b'2' ∷ b':' ∷ b'7' ∷ []) ≡ none)
unfolding ether_addr_to_in6_addr parse_mac_address clean_mac
conversions = (refl, refl, refl)

node_seven-IsAddr : IsAddr (node 7)
node_seven-IsAddr =
    (omega arith, (omega arith, (omega arith, (omega arith, (omega arith, (omega arith, tt))))))

-- A peer on the channels of the node.
abbrev reachable : Peer
reachable = record ready { sequence = me.channel.sequence }

abbrev radio : Radio
radio = record {
  node = record me { running = true };
  ieee = ieee80211_init_state;
  sent = [];
  host = [];
}

abbrev queue : CircularBuf Buf
queue = record {
  buffer = λ _. record { bytes = []; off = 0; len = 0; owned = true };
  head = 0;
  tail = 0;
  max = 4;
  full = false;
}

abbrev packet : List ℕ
packet =
    replicate 24 0
    ++ (0xfe ∷ 0x80 ∷ 0 ∷ 0 ∷ 0 ∷ 0 ∷ 0 ∷ 0 ∷ 0 ∷ 0 ∷ 0 ∷ 0xff ∷ 0xfe ∷ 0 ∷ 0 ∷ 7 ∷ 1 ∷ 2 ∷ 3 ∷ [])

abbrev starts_with_ff : List ℕ → Bool
starts_with_ff a = get_or a 0 0 == 0xff

reach : awdl_can_send_unicast_in radio.node reachable 50000 unicast_guard_tu ≡ pos 0
unfolding awdl_can_send_unicast_in awdl_same_channel_as_peer awdl_sync_current_eaw
    awdl_sync_current_aw awdl_sync_next_aw_us ieee80211_tu_to_usec awdl_chan_num
reach = refl

other_node : compare_ether_addr (node 7) radio.node.self_address ≢ Ordering.eq
unfolding compare_ether_addr
other_node e = absurd (ground (arith, e))

abbrev peers : Entries
peers = with_entry (λ _. none) (node 7) (some reachable)

transmit-send_unicast_example :
    let before : Daemon entries = record {
      radio = radio;
      peers = peers;
      next = none;
      tx_queue = queue;
    } in
    let (accepted, waiting) =
      awdl_transmit entries starts_with_ff false (λ n. replicate n 0) packet before in
    let (after, timer) = awdl_send_unicast entries (node 0) 50000 waiting in
    (accepted ≡ true)
    × (timer ≡ none)
    × (after.next ≡ none)
    × (after.radio.sent ≡ [] ++ (data_frame radio (node 7) packet ∷ []))
unfolding ether_addr_to_in6_addr circular_buf_full
transmit-send_unicast_example =
    transmit-send_unicast entries starts_with_ff (λ n. replicate n 0) (node 0) (node 7) reachable
      packet 50000 radio peers queue node_seven-IsAddr refl refl (omega arith)
      (length-replicate {A = ℕ} (6 + length packet) 0) refl refl other_node refl reach

switch_channel_lem_example :
    let (after, timer) = awdl_switch_channel 50000 me in
    (((slot_number 50000 me ≡ 0) × (after ≡ me))
      ⊎ (awdl_chan_num after.channel.current after.channel.enc ≡ slot_number 50000 me))
    × (slot_at (50000 + timer) me ≡ (slot_at 50000 me + 1) % 16)
    × (slot_at (50000 + 1000) me ≡ slot_at 50000 me)
unfolding awdl_switch_channel awdl_sync_next_aw_us
switch_channel_lem_example = switch_channel_lem me 50000 1000 me_valid (omega arith) (omega arith)

-- Just before the end of a slot, the packet for the peer waits.
abbrev waiting : Daemon entries
waiting = record {
  radio = radio;
  peers = with_entry (λ _. none) (node 7) (some ready);
  next = some (record { bytes = octets (node 7); off = 0; len = 6; owned = true });
  tx_queue = queue;
}

waits : (awdl_send_unicast entries (node 0) 70436 waiting).1 ≡ some 0
unfolding awdl_send_unicast send_next unicast_step try_unicast rearm_time read_ether_addr
    compare_ether_addr awdl_can_send_unicast_in awdl_same_channel_as_peer awdl_sync_current_eaw
    awdl_sync_current_aw awdl_sync_next_aw_us ieee80211_tu_to_usec awdl_chan_num
waits = refl

send_unicast-rearm_example :
    ((awdl_send_unicast entries (node 0) 70436 waiting).1 ≡ none)
    ⊎ ((awdl_send_unicast entries (node 0) 70436 waiting).1 ≡ some 0)
send_unicast-rearm_example = send_unicast-rearm entries (node 0) 70436 waiting me_valid

clean_peers-elects_example :
    let (left, elected, time) =
      awdl_clean_peers (address_keys last_octet) 20 11 1000000 nobody heard_at_nine in
    Leads nobody elected
    ⊎ ((b : EtherAddr) × (p : Peer) × ((hashmap_get
            (address_keys last_octet)
            heard_at_nine
            b
            false).1
          ≡ some p)
        × (20 ≤ p.last_update + 11)
        × Follows nobody p.election elected)
clean_peers-elects_example =
    clean_peers-elects (address_keys last_octet) 20 11 1000000 nobody heard_at_nine
      heard_at_nine-IsValid (omega arith) (omega arith)
