-- ===== src/Core/Events/Sound.antt =====
-- main/wifi/core.c: what the functions that send leave of the node's state.
use esp_owl.Base.{
  get_or, ◌%◌, Bool, List, Option-cases, arith, false, if◌then◌else◌, inl, inr, take, true, ℕ, ◌+◌,
  ◌<◌, ◌^◌, ◌≡◌, ltb, not, ◌&&◌, ◌==◌,
}
use esp_owl.Base.Bits.{bit_and-low}
use esp_owl.Base.Int.{pos}
use esp_owl.Ethernet.{EtherAddr}
use esp_owl.Wire.{Buf, buf_data, buf_len, buf_strip, read_ether_addr}
use esp_owl.Channel.{awdl_chan_num, chan_null, chanseq_length}
use esp_owl.Sync.{awdl_sync_current_eaw, u16, u64}
use esp_owl.Sync.Windows
use esp_owl.State.{
  AwdlState, Ieee80211State, Stats, awdl_state_next_sequence_number,
  ieee80211_state_next_sequence_number,
}
use esp_owl.Tx.Frames.{
  awdl_init_data, awdl_init_full_action_frame, awdl_init_full_data_frame,
  ieee80211_init_awdl_action_hdr, ieee80211_init_awdl_data_hdr, ieee80211_init_awdl_hdr,
}
use esp_owl.Core.Daemon.{
  Radio, awdl_send_action, awdl_send_data, awdl_send_mif, awdl_switch_channel, count_stats,
  wlan_send,
}

-- The clock is in good order, the node knows itself by its own address, and the number of the next
-- frame has twelve bits.
pub record IsSound (own : EtherAddr) (r : Radio) : Type 0 where
  pub clock : Windows.IsValid r.node.sync
  pub address : r.node.self_address ≡ own
  pub candidate : r.node.election.self_addr ≡ own
  pub number : r.ieee.sequence_number < 2 ^ 12

next_number_bound :
    (s : Ieee80211State) → (ieee80211_state_next_sequence_number s).1.sequence_number < 2 ^ 12
unfolding ieee80211_state_next_sequence_number
next_number_bound s = omega (arith, bit_and-low 12 (u16 (s.sequence_number + 1)))

module _ (own : EtherAddr) where
  pub either-IsSound :
      (test : Bool) (r q : Radio)
      → IsSound own r
      → IsSound own q
      → IsSound own (if test then r else q)
  either-IsSound true r q h k = h
  either-IsSound false r q h k = k

  pub either_node :
      (test : Bool) (n m : AwdlState) (r : Radio)
      → IsSound own (record r { node = n })
      → IsSound own (record r { node = m })
      → IsSound own (record r { node = if test then n else m })
  either_node true n m r h k = h
  either_node false n m r h k = k

  pub count-IsSound :
      (f : Stats → Stats) (r : Radio) → IsSound own r → IsSound own (count_stats f r)
  count-IsSound f r h = record {
    clock = h.clock;
    address = h.address;
    candidate = h.candidate;
    number = h.number;
  }

  wlan_send-IsSound : (frame : List ℕ) (r : Radio) → IsSound own r → IsSound own (wlan_send frame r)
  wlan_send-IsSound frame r h =
      either-IsSound r.node.running _ r
        (record {
          clock = h.clock;
          address = h.address;
          candidate = h.candidate;
          number = h.number;
        })
        h

  pub send_data-IsSound :
      (buf : Buf) (r : Radio) → IsSound own r → IsSound own (awdl_send_data buf r).1
  unfolding awdl_send_data awdl_init_full_data_frame awdl_init_data awdl_state_next_sequence_number
      ieee80211_init_awdl_data_hdr ieee80211_init_awdl_hdr
  send_data-IsSound buf r h = elim (Option-cases (read_ether_addr buf (pos 0))) [
    | inl e ↦ rw (awdl_send_data, e) h
    | inr (dst, e) ↦
        let rest = (buf_strip buf (pos 6)).1 in
        let (frame, node, ieee) =
          awdl_init_full_data_frame r.node.self_address dst (take (buf_len rest) (buf_data rest))
            r.node r.ieee in
        let filled : Radio = record r { node = node; ieee = ieee } in
        let sound : IsSound own filled = record {
          clock = h.clock;
          address = h.address;
          candidate = h.candidate;
          number = next_number_bound r.ieee;
        } in
        let more : Stats → Stats = λ s. record s { tx_data = u64 (s.tx_data + 1) } in
        rw (awdl_send_data, e)
          (wlan_send-IsSound frame (count_stats more filled) (count-IsSound more filled sound))
  ]

  pub send_action-IsSound :
      (started now type : ℕ) (r : Radio)
      → IsSound own r
      → IsSound own (awdl_send_action started now type r)
  unfolding awdl_send_action awdl_init_full_action_frame ieee80211_init_awdl_action_hdr
      ieee80211_init_awdl_hdr
  send_action-IsSound started now type r h =
      let (frame, ieee) = awdl_init_full_action_frame started now r.node r.ieee type in
      let filled : Radio = record r { ieee = ieee } in
      let sound : IsSound own filled = record {
        clock = h.clock;
        address = h.address;
        candidate = h.candidate;
        number = next_number_bound r.ieee;
      } in
      count-IsSound (λ s. record s { tx_action = u64 (s.tx_action + 1) }) (wlan_send frame filled)
        (wlan_send-IsSound frame filled sound)

  pub send_mif-IsSound :
      (now started later : ℕ) (r : Radio)
      → IsSound own r
      → IsSound own (awdl_send_mif now started later r).0
  unfolding awdl_send_mif
  send_mif-IsSound now started later r h =
      either-IsSound (ltb 0 (awdl_chan_num r.node.channel.current r.node.channel.enc)) _ r
        (send_action-IsSound started later _ r h) h

  pub switch_channel-IsSound :
      (now : ℕ) (r : Radio)
      → IsSound own r
      → IsSound own (record r { node = (awdl_switch_channel now r.node).0 })
  unfolding awdl_switch_channel
  switch_channel-IsSound now r h =
      let old = r.node.channel in
      let slot = awdl_sync_current_eaw now r.node.sync % chanseq_length in
      let chan_new = get_or old.sequence slot chan_null in
      let num = awdl_chan_num chan_new old.enc in
      let switched : AwdlState = record r.node { channel = record old { current = chan_new } } in
      either_node (not (num == 0) && not (num == awdl_chan_num old.current old.enc)) switched r.node
        r
        (record {
          clock = h.clock;
          address = h.address;
          candidate = h.candidate;
          number = h.number;
        })
        h
