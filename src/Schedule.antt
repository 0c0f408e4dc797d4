-- ===== src/Schedule.antt =====
-- main/owl/schedule.c: when a frame may be sent. The source returns seconds as floating point
-- numbers; here they are the microseconds that it divides by a million.
pub mod Guard
mod Tests
use esp_owl.Base.{Bool, get_or, if◌then◌else◌, ltb, not, ℕ, ◌%◌, ◌&&◌, ◌+◌, ◌-◌, ◌==◌, ◌||◌}
use esp_owl.Base.Int.{pos, sub_ℕ, ℤ}
use esp_owl.Channel.{awdl_chan_num, chan_null, chanseq_length}
use esp_owl.Sync.{
  awdl_sync_current_eaw, awdl_sync_next_aw_us, eaw_period, ieee80211_tu_to_usec, sub64, u64,
}
use esp_owl.Peers.{Peer}
use esp_owl.State.{AwdlState}

abbrev pub unicast_guard_tu : ℕ
unicast_guard_tu = 3

abbrev pub multicast_guard_tu : ℕ
multicast_guard_tu = 4

abbrev slot_of : ℕ → AwdlState → ℕ
slot_of now state = awdl_sync_current_eaw now state.sync % chanseq_length

unfoldable pub awdl_same_channel_as_peer : AwdlState → ℕ → Peer → Bool
awdl_same_channel_as_peer state now peer =
    let own_slot = slot_of now state in
    let peer_slot = slot_of (u64 (now + peer.sync_offset)) state in
    let own_chan =
      awdl_chan_num (get_or state.channel.sequence own_slot chan_null) state.channel.enc in
    let peer_chan = awdl_chan_num (get_or peer.sequence peer_slot chan_null) state.channel.enc in
    not (own_chan == 0) && own_chan == peer_chan

unfoldable pub awdl_is_multicast_eaw : AwdlState → ℕ → Bool
awdl_is_multicast_eaw state now = slot_of now state == 0 || slot_of now state == 10

-- `ieee80211_tu_to_usec(64)`
abbrev pub eaw_us : ℕ
eaw_us = 65536

-- Negative behind the end of the slot, positive before its beginning, 0 within the guards.
unfoldable pub guarded : ℕ → ℕ → ℤ
guarded next_aw guard =
    if ltb next_aw guard
    then sub_ℕ 0 (guard - next_aw)
    else if ltb (sub64 eaw_us next_aw) guard
    then pos (guard - sub64 eaw_us next_aw)
    else pos 0

unfoldable pub awdl_can_send_in : AwdlState → ℕ → ℕ → ℤ
awdl_can_send_in state now guard =
    guarded (awdl_sync_next_aw_us now state.sync) (ieee80211_tu_to_usec guard)

unfoldable pub awdl_inactive_in_us : AwdlState → ℕ → ℕ
awdl_inactive_in_us state now =
    u64 (awdl_sync_next_aw_us now state.sync + ieee80211_tu_to_usec (eaw_period state.sync))

unfoldable pub awdl_active_in : AwdlState → ℕ → ℕ
awdl_active_in state now = awdl_sync_next_aw_us now state.sync

unfoldable pub awdl_can_send_unicast_in : AwdlState → Peer → ℕ → ℕ → ℤ
awdl_can_send_unicast_in state peer now guard =
    let next_aw = awdl_sync_next_aw_us now state.sync in
    let guard_us = ieee80211_tu_to_usec guard in
    if not (awdl_same_channel_as_peer state now peer)
    then pos next_aw
    else if ltb next_aw guard_us
    then if awdl_same_channel_as_peer state (u64 (now + eaw_us)) peer
      then pos 0
      else sub_ℕ 0 (guard_us - next_aw)
    else if ltb (sub64 eaw_us next_aw) guard_us
    then if awdl_same_channel_as_peer state (sub64 now eaw_us) peer
      then pos 0
      else pos (guard_us - sub64 eaw_us next_aw)
    else pos 0
