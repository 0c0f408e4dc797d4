-- ===== src/Core/Air/Tests.antt =====
-- Captured frames: a data frame with a payload of 300 bytes, and the MIF of the master.
use esp_owl.Rx.Tests.{
  checksum, clock, known, listener, listener_valid, master, me, me_can, stack, state_of,
}
use esp_owl.Base.{
  All, Bool, IsByte, ltb, List, [], arith, false, length, none, refl, replicate, some, true, ℕ,
  ◌++◌, ◌-◌, ◌&&◌, ◌||◌, ◌∷◌, ◌≡◌,
}
use esp_owl.Base.Int.{◌+ℤ◌}
use esp_owl.Frame.{action_mif}
use esp_owl.State.{Ieee80211State}
use esp_owl.Peers.Table.{awdl_peer_get, is_failure, peers_ok}
use esp_owl.Peers.Table.Tests.{Entries, entries, node, one_peer, ready, with_entry}
use esp_owl.Rx.Action.{is_too_weak}
use esp_owl.Rx.Data.{LlcHdr}
use esp_owl.Rx.Receive.{is_group, same_addr, signed_char}
use esp_owl.Rx.Announce.Frame.{MetBy, clock_set, count_action}
use esp_owl.Core.Capture.{Captured, wifi_sniffer_packet_handler}
use esp_owl.Core.Air.{data_captured}
use esp_owl.Core.Air.Any.{Air, OfBytes, capture_all, captured-IsValid}
use esp_owl.Sync.Windows
use esp_owl.Core.Air.Mif.{mif_captured}
use esp_owl.Channel.{awdl_chan_encoding_length, awdl_chan_num}
use esp_owl.Sync.{awdl_sync_current_aw, awdl_sync_next_aw_tu}
use esp_owl.Tx.Tlvs.{
  awdl_init_arpa_tlv, awdl_init_chanseq, awdl_init_chanseq_tlv, awdl_init_data_path_state_tlv,
  awdl_init_election_params_tlv, awdl_init_election_params_v2_tlv, awdl_init_ht_capabilities_tlv,
  awdl_init_service_params_tlv, awdl_init_sync_params_tlv, awdl_init_version_tlv,
  remaining_aw_length, social_channel_bit,
}
use esp_owl.Tx.Frames.{awdl_init_full_action_frame, awdl_init_full_data_frame}

abbrev pub garbage : LlcHdr
garbage = record { dsap = 0; ssap = 0; control = 0; oui = []; pid = 0 }

abbrev pub ieee : Ieee80211State
ieee = record { sequence_number = 9; fcs = false }

abbrev pub sig_len : List ℕ → ℕ
sig_len frame = length frame - 2

abbrev payload : List ℕ
payload = replicate 300 7

abbrev idle : Captured Entries
idle = record { node = me; peers = one_peer; host = []; overrun = false }

-- A frame with another address than the one of AWDL is left alone, and one of an unknown type.
ignored :
    (wifi_sniffer_packet_handler entries 2 ready [] [] garbage true length 0 2 (replicate 40 0) idle
      ≡ idle)
    × (wifi_sniffer_packet_handler entries 2 ready [] [] garbage true length 0 4 [] idle ≡ idle)
unfolding wifi_sniffer_packet_handler
ignored = (refl, refl)

is_known : is_failure (awdl_peer_get entries one_peer (node 7)).0 ≡ false
unfolding awdl_peer_get
is_known = refl

for_me : (is_group (node 1) || same_addr (node 1) idle.node.self_address) ≡ true
unfolding is_group
for_me = refl

data_captured_example :
    let air =
      (awdl_init_full_data_frame (node 7) (node 1) payload (state_of 7 (clock 0 0)) ieee).0
      ++ checksum in
    let after =
      wifi_sniffer_packet_handler entries 2 ready []
        (replicate 1518 0)
        garbage
        true
        sig_len
        9
        2
        (208 ∷ 0 ∷ (air))
        idle in
    (after.host ≡ replicate 44 7 ∷ []) × (after.peers ≡ one_peer) × (after.overrun ≡ false)
data_captured_example =
    data_captured entries ready [] (replicate 1518 0) garbage sig_len 9 2 208 (node 7) (node 1)
      (state_of 7 (clock 0 0)) ieee (0 ∷ []) payload checksum idle (omega arith) refl refl refl
      (omega arith) refl for_me is_known refl (omega arith)

-- A node whose master is the sender.
abbrev follower : Captured Entries
follower = record {
  node = listener;
  peers = with_entry (λ _. none) (node 1) (some known);
  host = [];
  overrun = false;
}

strong : (listener.filter_rssi && is_too_weak listener (signed_char 208) peers_ok) ≡ false
unfolding is_too_weak signed_char ◌+ℤ◌
strong = refl

to_all : (is_group me.dst || same_addr me.dst listener.self_address) ≡ true
unfolding is_group
to_all = refl

mif_captured_example :
    let air = (awdl_init_full_action_frame 49000 50000 me ieee action_mif).0 ++ checksum in
    let after =
      wifi_sniffer_packet_handler entries 2 ready stack [] garbage true sig_len 800000 0
        (208 ∷ 0 ∷ (air))
        follower in
    MetBy entries 800000 (node 1) me known follower.peers after.peers
    × (after.node ≡ clock_set 800000 50000 me (count_action listener))
    × (after.host ≡ [])
    × (after.overrun ≡ false)
mif_captured_example =
    mif_captured entries ready stack [] garbage sig_len 800000 0 208 49000 50000 me known ieee
      (0 ∷ []) checksum follower (omega arith) refl refl (omega arith) refl to_all me_can refl
      listener_valid master tt refl strong refl (omega arith)

all_small : List ℕ → Bool
all_small [] = true
all_small (x ∷ xs) = ltb x 256 && all_small xs

small-IsByte : (xs : List ℕ) → all_small xs ≡ true → All IsByte xs
unfolding all_small
small-IsByte [] h = tt
small-IsByte (x ∷ xs) h = (ground (arith, h), small-IsByte xs (ground (arith, h)))

abbrev mif : List ℕ
mif = 208 ∷ 0 ∷ ((awdl_init_full_action_frame 49000 50000 me ieee action_mif).0 ++ checksum)

-- The MIF of the master, and a frame of other bytes.
abbrev noise : List Air
noise =
    record { now = 800000; type = 0; buff = mif }
    ∷ record { now = 900000; type = 2; buff = replicate 90 255 }
    ∷ []

mif_bytes : All IsByte mif
unfolding awdl_init_full_action_frame awdl_init_sync_params_tlv awdl_init_chanseq all_small
    awdl_chan_encoding_length awdl_chan_num awdl_sync_next_aw_tu remaining_aw_length
    awdl_sync_current_aw awdl_init_election_params_tlv awdl_init_chanseq_tlv
    awdl_init_election_params_v2_tlv awdl_init_service_params_tlv awdl_init_ht_capabilities_tlv
    awdl_init_arpa_tlv awdl_init_data_path_state_tlv social_channel_bit awdl_init_version_tlv
mif_bytes = small-IsByte mif refl

noise_bytes : All OfBytes noise
unfolding all_small
noise_bytes = (mif_bytes, (small-IsByte (replicate 90 255) refl, tt))

in_place :
    (capture_all entries 2 ready stack [] garbage true sig_len noise follower).overrun ≡ false
unfolding wifi_sniffer_packet_handler
in_place = mif_captured_example.3

captured-IsValid_example :
    let after = capture_all entries 2 ready stack [] garbage true sig_len noise follower in
    Windows.IsValid after.node.sync
    × entries.IsValid after.peers
    × (after.node ≡ record follower.node { sync = after.node.sync; stats = after.node.stats })
captured-IsValid_example =
    captured-IsValid entries 2 ready stack [] garbage true sig_len noise follower noise_bytes
      listener_valid tt in_place
