-- ===== src/Sync/Windows.antt =====
-- The window arithmetic of main/owl/sync.c in the periods that the state is initialised with.
use esp_owl.Base.{arith, ℕ, ◌%◌, ◌*◌, ◌+◌, ◌-◌, ◌/◌, ◌<◌, ◌^◌, ◌≡◌, ◌≤◌}
use esp_owl.Sync.{
  SyncState, awdl_sync_current_aw, awdl_sync_current_eaw, awdl_sync_next_aw_tu,
  awdl_sync_next_aw_us, sub64,
}

-- What `awdl_sync_state_init` establishes and nothing changes: four AWs of 16 TU to an EAW. The
-- other fields are in the range of their types, and the counter that of the first AW of an EAW.
pub record IsValid (s : SyncState) : Type 0 where
  pub period : s.aw_period ≡ 16
  pub presence : s.presence_mode ≡ 4
  pub counter : s.aw_counter < 2 ^ 16
  pub aligned : s.aw_counter % 4 ≡ 0
  pub clock : s.last_update < 2 ^ 64

-- The microseconds since the last update, in 64 bits.
abbrev pub elapsed : ℕ → SyncState → ℕ
elapsed now s = sub64 now s.last_update

module _ {s : SyncState} (v : IsValid s) (now : ℕ) where
  -- The closed forms: 32 bits of microseconds are enough for the place within an EAW.
  pub next_aw_tu_lem : awdl_sync_next_aw_tu now s ≡ 64 - elapsed now s / 1024 % 64
  unfolding awdl_sync_next_aw_tu
  next_aw_tu_lem = rw (v.period, v.presence) (omega arith)

  pub next_aw_us_lem : awdl_sync_next_aw_us now s ≡ 65536 - elapsed now s % 65536
  unfolding awdl_sync_next_aw_us
  next_aw_us_lem = rw (v.period, v.presence) (omega arith)

  -- The next EAW is at least one and at most 64 TU away, and when it begins a multiple of the
  -- period has passed since the last update. The two functions agree, up to the part of a TU.
  pub next_aw_bounds :
      (0 < awdl_sync_next_aw_tu now s)
      × (awdl_sync_next_aw_tu now s ≤ 64)
      × ((elapsed now s + awdl_sync_next_aw_us now s) % 65536 ≡ 0)
      × (0 < awdl_sync_next_aw_us now s)
      × (awdl_sync_next_aw_us now s ≤ awdl_sync_next_aw_tu now s * 1024)
      × (awdl_sync_next_aw_tu now s * 1024 < awdl_sync_next_aw_us now s + 1024)
  next_aw_bounds = omega (arith, next_aw_tu_lem, next_aw_us_lem)

  -- The AW counter is the counter of the last update plus the whole AWs since then, counted in
  -- 64 bits and cut to 16: narrowing the time to 32 bits of microseconds never shows.
  pub current_aw-elapsed :
      awdl_sync_current_aw now s ≡ (s.aw_counter + elapsed now s / 16384) % 2 ^ 16
  unfolding awdl_sync_current_aw
  current_aw-elapsed = rw (v.period, v.presence) (omega arith)

module _ {s : SyncState} (v : IsValid s) (now : ℕ) where
  pub current_eaw_lem :
      awdl_sync_current_eaw now s ≡ (s.aw_counter / 4 + elapsed now s / 65536) % 2 ^ 14
  unfolding awdl_sync_current_eaw
  current_eaw_lem = simp (v.presence, current_aw-elapsed v now) (omega (arith, v.aligned))

-- After the returned number of microseconds, and not a microsecond earlier, the EAW counter is
-- one higher, modulo its 14 bits.
pub current_eaw-next_aw_us :
    {s : SyncState} (v : IsValid s) (now early : ℕ)
    → now + awdl_sync_next_aw_us now s < 2 ^ 64
    → early < awdl_sync_next_aw_us now s
    → (awdl_sync_current_eaw (now + awdl_sync_next_aw_us now s) s
        ≡ (awdl_sync_current_eaw now s + 1) % 2 ^ 14)
      × (awdl_sync_current_eaw (now + early) s ≡ awdl_sync_current_eaw now s)
current_eaw-next_aw_us {s} v now early h e = omega (
  arith,
  v.clock,
  next_aw_us_lem v now,
  current_eaw_lem v now,
  current_eaw_lem v (now + early),
  current_eaw_lem v (now + awdl_sync_next_aw_us now s),
)
