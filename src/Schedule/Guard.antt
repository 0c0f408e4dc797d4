-- ===== src/Schedule/Guard.antt =====
-- main/owl/schedule.c: what the waiting times of the guards mean.
use esp_owl.Base.{arith, sym, ℕ, ◌*◌, ◌+◌, ◌-◌, ◌<◌, ◌^◌, ◌↔◌, ◌≡◌, ◌≤◌}
use esp_owl.Base.Int.{pos}
use esp_owl.Sync.{SyncState, awdl_sync_next_aw_us, ieee80211_tu_to_usec}
use esp_owl.Sync.Windows.{IsValid, next_aw_bounds, next_aw_us_lem}
use esp_owl.State.{AwdlState}
use esp_owl.Schedule.{awdl_can_send_in, eaw_us, guarded}

-- Within the guards a frame may be sent now, and only there.
guarded_iff :
    (next_aw guard : ℕ)
    → 0 < next_aw
    → next_aw ≤ eaw_us
    → (guarded next_aw guard ≡ pos 0) ↔ ((guard ≤ next_aw) × (next_aw + guard ≤ eaw_us))
unfolding guarded
guarded_iff next_aw guard some_time most = ground arith

guarded_wait :
    (n guard wait : ℕ)
    → 0 < n
    → n ≤ eaw_us
    → 2 * guard ≤ eaw_us
    → guarded n guard ≡ pos wait
    → (wait < n) × (guarded (n - wait) guard ≡ pos 0)
unfolding guarded
guarded_wait n guard wait some_time most half e = ground arith

guard_us : (guard : ℕ) → guard ≤ 32 → ieee80211_tu_to_usec guard ≡ 1024 * guard
unfolding ieee80211_tu_to_usec
guard_us guard h = omega arith

next_aw_us_later :
    {s : SyncState} (v : IsValid s) (now wait : ℕ)
    → s.last_update ≤ now
    → now + wait < 2 ^ 64
    → wait < awdl_sync_next_aw_us now s
    → awdl_sync_next_aw_us (now + wait) s ≡ awdl_sync_next_aw_us now s - wait
next_aw_us_later v now wait h k l =
    omega (arith, next_aw_us_lem v now, next_aw_us_lem v (now + wait))

-- With a valid clock and a guard of at most 32 TU, the answer is 0 exactly when the next EAW is
-- at least the guard away and the current one began at least the guard ago.
pub can_send_in-eq-zero_iff :
    (state : AwdlState) (now guard : ℕ)
    → IsValid state.sync
    → guard ≤ 32
    → (awdl_can_send_in state now guard ≡ pos 0) ↔ (
        (1024 * guard ≤ awdl_sync_next_aw_us now state.sync)
        × (awdl_sync_next_aw_us now state.sync + 1024 * guard ≤ 65536))
unfolding awdl_can_send_in
can_send_in-eq-zero_iff state now guard v h =
    let (_, _, _, some_time, _, _) = next_aw_bounds v now in
    rw (guard_us guard h) (
      guarded_iff (awdl_sync_next_aw_us now state.sync) (1024 * guard) some_time
        (omega (arith, next_aw_us_lem v now)))

-- With a valid clock that was not updated later than now, and a guard of at most 32 TU: after the
-- time that is returned, when it is not negative and the clock does not wrap, a frame may be sent.
pub can_send_in_wait :
    (state : AwdlState) (now guard wait : ℕ)
    → IsValid state.sync
    → guard ≤ 32
    → state.sync.last_update ≤ now
    → now + wait < 2 ^ 64
    → awdl_can_send_in state now guard ≡ pos wait
    → awdl_can_send_in state (now + wait) guard ≡ pos 0
unfolding awdl_can_send_in
can_send_in_wait state now guard wait v h past wraps e =
    let (_, _, _, some_time, _, _) = next_aw_bounds v now in
    let n = awdl_sync_next_aw_us now state.sync in
    let us = guard_us guard h in
    let answer : guarded n (1024 * guard) ≡ pos wait = rw (sym us) e in
    let (short, within) =
      guarded_wait n (1024 * guard) wait some_time (omega (arith, next_aw_us_lem v now))
        (omega (arith, h)) answer in
    rw (us, next_aw_us_later v now wait past wraps short) within
