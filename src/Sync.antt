-- ===== src/Sync.antt =====
-- main/owl/sync.c, with the time units of main/owl/ieee80211.h: availability windows (AW),
-- and extended ones (EAW) of `presence_mode` AWs.
-- `uint64_t` wraps at 2 ^ 64. `unsigned long`, the type of the conversions between time units and
-- microseconds, has 32 bits on the ESP32-S3.
pub mod Windows
pub mod Update
mod Tests
use esp_owl.Base.{bit_and, ℕ, ◌%◌, ◌*◌, ◌+◌, ◌-◌, ◌/◌, ◌^◌}
use esp_owl.Base.Int.{pos, sub_ℕ, ℤ, ◌*ℤ◌, ◌-ℤ◌}

-- `struct awdl_sync_state`
pub record SyncState : Type 0 where
  pub aw_counter : ℕ
  pub last_update : ℕ
  pub aw_period : ℕ
  pub presence_mode : ℕ
  pub meas_err : ℕ
  pub meas_total : ℕ

abbrev pub u16 : ℕ → ℕ
u16 x = x % 2 ^ 16

abbrev pub u32 : ℕ → ℕ
u32 x = x % 2 ^ 32

abbrev pub u64 : ℕ → ℕ
u64 x = x % 2 ^ 64

-- `uint64_t` subtraction, for a subtrahend below 2 ^ 64
abbrev pub sub64 : ℕ → ℕ → ℕ
sub64 a b = (a + 2 ^ 64 - b) % 2 ^ 64

unfoldable pub ieee80211_tu_to_usec : ℕ → ℕ
ieee80211_tu_to_usec tu = u32 (1024 * u32 tu)

unfoldable pub ieee80211_usec_to_tu : ℕ → ℕ
ieee80211_usec_to_tu usec = u32 usec / 1024

unfoldable pub awdl_sync_state_init : ℕ → SyncState
awdl_sync_state_init now = record {
  aw_counter = 0;
  last_update = now;
  aw_period = 16;
  presence_mode = 4;
  meas_err = 0;
  meas_total = 0;
}

-- `presence_mode * aw_period`, of `int` type and below 2 ^ 24
abbrev pub eaw_period : SyncState → ℕ
eaw_period s = s.presence_mode * s.aw_period

unfoldable pub awdl_sync_next_aw_tu : ℕ → SyncState → ℕ
unfolding ieee80211_usec_to_tu
awdl_sync_next_aw_tu now s =
    let time_since = ieee80211_usec_to_tu (sub64 now s.last_update) in
    u16 (sub64 (eaw_period s) (time_since % eaw_period s))

unfoldable pub awdl_sync_next_aw_us : ℕ → SyncState → ℕ
unfolding ieee80211_tu_to_usec
awdl_sync_next_aw_us now s =
    let period = ieee80211_tu_to_usec (eaw_period s) in
    let time_since = sub64 now s.last_update in sub64 period (time_since % period)

unfoldable pub awdl_sync_current_aw : ℕ → SyncState → ℕ
unfolding ieee80211_usec_to_tu
awdl_sync_current_aw now s =
    let time_since = ieee80211_usec_to_tu (sub64 now s.last_update) in
    u16 (
      u64 (
        s.aw_counter
        + time_since % eaw_period s / s.aw_period
        + s.presence_mode * (time_since / eaw_period s)))

unfoldable pub awdl_sync_current_eaw : ℕ → SyncState → ℕ
awdl_sync_current_eaw now s = awdl_sync_current_aw now s / s.presence_mode

-- `int` arithmetic, which does not overflow for the periods in use.
unfoldable pub awdl_sync_error_tu : ℕ → ℕ → ℕ → SyncState → ℤ
awdl_sync_error_tu now time_to_next_aw aw_counter s =
    sub_ℕ (aw_counter / s.presence_mode) (awdl_sync_current_eaw now s)
      *ℤ pos s.presence_mode
      *ℤ pos s.aw_period
    -ℤ sub_ℕ time_to_next_aw (awdl_sync_next_aw_tu now s)

unfoldable pub awdl_sync_update_last : ℕ → ℕ → ℕ → SyncState → SyncState
unfolding ieee80211_tu_to_usec
awdl_sync_update_last now time_to_next_aw aw_counter s = record s {
  last_update = sub64 now (ieee80211_tu_to_usec (sub64 (eaw_period s) time_to_next_aw));
  aw_counter = bit_and aw_counter 0xfffc;
}
