-- ===== src/Schedule/Tests.antt =====
-- The waiting times of main/owl/schedule.c at the beginning of an EAW.
use esp_owl.Base.{arith, refl, ◌*◌, ◌+◌, ◌↔◌, ◌≡◌, ◌≤◌}
use esp_owl.Base.Int.{negsuc, pos}
use esp_owl.Sync.{awdl_sync_next_aw_us, ieee80211_tu_to_usec}
use esp_owl.Schedule.{awdl_can_send_in, guarded, multicast_guard_tu}
use esp_owl.Schedule.Guard.{can_send_in-eq-zero_iff, can_send_in_wait}
use esp_owl.Rx.Tests.{me, me_valid}

-- 100 microseconds after its beginning, with the guard for multicast frames.
begins : awdl_can_send_in me 5100 multicast_guard_tu ≡ pos 3996
unfolding awdl_can_send_in guarded awdl_sync_next_aw_us ieee80211_tu_to_usec
begins = refl

-- 100 microseconds before its end.
ends : awdl_can_send_in me 70436 multicast_guard_tu ≡ negsuc 3995
unfolding awdl_can_send_in guarded awdl_sync_next_aw_us ieee80211_tu_to_usec
ends = refl

can_send_in-eq-zero_iff_example : (awdl_can_send_in me 50000 4 ≡ pos 0) ↔ (
    (1024 * 4 ≤ awdl_sync_next_aw_us 50000 me.sync)
    × (awdl_sync_next_aw_us 50000 me.sync + 1024 * 4 ≤ 65536))
can_send_in-eq-zero_iff_example = can_send_in-eq-zero_iff me 50000 4 me_valid (omega arith)

can_send_in_wait_example : awdl_can_send_in me (5100 + 3996) 4 ≡ pos 0
can_send_in_wait_example =
    can_send_in_wait me 5100 4 3996 me_valid (omega arith) (omega arith) (omega arith) begins
