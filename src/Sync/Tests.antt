-- ===== src/Sync/Tests.antt =====
-- The windows of main/owl/sync.c some time after an update.
use esp_owl.Base.{arith, refl, ◌%◌, ◌+◌, ◌^◌, ◌≡◌}
use esp_owl.Base.Int.{pos, ◌*ℤ◌, ◌-ℤ◌}
use esp_owl.Sync.{
  SyncState, awdl_sync_current_aw, awdl_sync_current_eaw, awdl_sync_error_tu, awdl_sync_next_aw_tu,
  awdl_sync_next_aw_us,
}
use esp_owl.Sync.Windows.{IsValid, current_eaw-next_aw_us}

abbrev synced : SyncState
synced = record {
  aw_counter = 100;
  last_update = 5000;
  aw_period = 16;
  presence_mode = 4;
  meas_err = 0;
  meas_total = 0;
}

abbrev synced-IsValid : IsValid synced
synced-IsValid = omega arith

-- 45000 microseconds later: 43 TU, in the third AW of the first EAW.
later :
    (awdl_sync_current_aw 50000 synced ≡ 102)
    × (awdl_sync_current_eaw 50000 synced ≡ 25)
    × (awdl_sync_next_aw_tu 50000 synced ≡ 21)
    × (awdl_sync_next_aw_us 50000 synced ≡ 20536)
unfolding awdl_sync_current_eaw awdl_sync_current_aw awdl_sync_next_aw_tu awdl_sync_next_aw_us
later = (refl, refl, refl, refl)

sync_error : awdl_sync_error_tu 50000 20 108 synced ≡ pos 129
unfolding awdl_sync_error_tu awdl_sync_current_eaw awdl_sync_current_aw awdl_sync_next_aw_tu ◌-ℤ◌
    ◌*ℤ◌
sync_error = refl

current_eaw-next_aw_us_example :
    (awdl_sync_current_eaw (50000 + awdl_sync_next_aw_us 50000 synced) synced
      ≡ (awdl_sync_current_eaw 50000 synced + 1) % 2 ^ 14)
    × (awdl_sync_current_eaw (50000 + 7) synced ≡ awdl_sync_current_eaw 50000 synced)
current_eaw-next_aw_us_example =
    current_eaw-next_aw_us synced-IsValid 50000 7 (omega (arith, later.3)) (omega (arith, later.3))
