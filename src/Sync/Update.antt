-- ===== src/Sync/Update.antt =====
-- `awdl_sync_update_last` of main/owl/sync.c: what is adopted from a master is what is read back.
use esp_owl.Base.{arith, refl, ℕ, ◌%◌, ◌*◌, ◌-◌, ◌/◌, ◌<◌, ◌^◌, ◌≡◌, ◌≤◌}
use esp_owl.Base.Bits.{bit_and_clear_two}
use esp_owl.Base.Int.{pos, sub_ℕ_self, ◌*ℤ◌, ◌-ℤ◌}
use esp_owl.Sync.{
  SyncState, awdl_sync_current_eaw, awdl_sync_error_tu, awdl_sync_next_aw_tu, awdl_sync_state_init,
  awdl_sync_update_last,
}
use esp_owl.Sync.Windows.{IsValid, current_eaw_lem, elapsed, next_aw_tu_lem}

pub init-IsValid : (now : ℕ) → now < 2 ^ 64 → IsValid (awdl_sync_state_init now)
unfolding awdl_sync_state_init
init-IsValid now h = record {
  period = refl;
  presence = refl;
  counter = omega arith;
  aligned = refl;
  clock = h;
}

-- Adopting a master's parameters keeps the state valid, whatever they are.
pub update_last-IsValid :
    (now ttn aw : ℕ) {s : SyncState}
    → IsValid s
    → aw < 2 ^ 16
    → IsValid (awdl_sync_update_last now ttn aw s)
unfolding awdl_sync_update_last
update_last-IsValid now ttn aw v h = record {
  period = v.period;
  presence = v.presence;
  counter = omega (arith, bit_and_clear_two aw h);
  aligned = omega (arith, bit_and_clear_two aw h);
  clock = omega arith;
}

module _ {s : SyncState} (v : IsValid s) (now ttn aw : ℕ) where
  counter_update : aw < 2 ^ 16 → (awdl_sync_update_last now ttn aw s).aw_counter ≡ aw - aw % 4
  unfolding awdl_sync_update_last
  counter_update h = bit_and_clear_two aw h

  elapsed_update :
      now < 2 ^ 64 → ttn ≤ 64 → elapsed now (awdl_sync_update_last now ttn aw s) ≡ (64 - ttn) * 1024
  unfolding awdl_sync_update_last
  elapsed_update h small = rw (v.period, v.presence) (omega arith)

-- For a time of 1 to 64 TU: right after the update the next EAW is that far away, the EAW counter
-- is that of the master, and the synchronisation error against the same values is zero.
pub update_last_adopts :
    {s : SyncState} (v : IsValid s) (now ttn aw : ℕ)
    → now < 2 ^ 64
    → 0 < ttn
    → ttn ≤ 64
    → aw < 2 ^ 16
    → (awdl_sync_next_aw_tu now (awdl_sync_update_last now ttn aw s) ≡ ttn)
      × (awdl_sync_current_eaw now (awdl_sync_update_last now ttn aw s) ≡ aw / 4)
      × (awdl_sync_error_tu now ttn aw (awdl_sync_update_last now ttn aw s) ≡ pos 0)
unfolding awdl_sync_error_tu
update_last_adopts {s} v now ttn aw clock some_time small h =
    let s' = awdl_sync_update_last now ttn aw s in
    let v' : IsValid s' = update_last-IsValid now ttn aw v h in
    let since = elapsed_update v now ttn aw clock small in
    let next : awdl_sync_next_aw_tu now s' ≡ ttn = omega (arith, next_aw_tu_lem v' now, since) in
    let eaw : awdl_sync_current_eaw now s' ≡ aw / 4 =
      omega (arith, current_eaw_lem v' now, since, counter_update v now ttn aw h) in
    (next, eaw, simp (eaw, next, v'.presence, v'.period, sub_ℕ_self) (unfold ◌-ℤ◌ ◌*ℤ◌ in refl))
