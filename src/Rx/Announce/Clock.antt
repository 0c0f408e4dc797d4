-- ===== src/Rx/Announce/Clock.antt =====
-- main/owl/tx.c and rx.c: a node that adopts the clock of its master from the synchronization TLV.
use esp_owl.Rx.{rx_ok}
use esp_owl.Base.{
  Bool, ap, arith, drop, false, if◌then◌else◌, le_value-le_bytes, length, le→ltb_false, ltb, refl,
  some, true, ℕ, ◌%◌, ◌+◌, ◌/◌, ◌<◌, ◌^◌, ◌∙◌, ◌≡◌, ◌≤◌,
}
use esp_owl.Base.Int.{pos}
use esp_owl.Wire.{read_le16}
use esp_owl.Sync.{
  SyncState, awdl_sync_current_aw, awdl_sync_current_eaw, awdl_sync_next_aw_tu,
  awdl_sync_update_last, u16, u64,
}
use esp_owl.Election.{awdl_election_is_sync_master}
use esp_owl.Peers.{Peer}
use esp_owl.State.{AwdlState}
use esp_owl.Rx.Tlvs.{awdl_handle_sync_params_tlv, measure}
use esp_owl.Tx.Tlvs.{awdl_init_sync_params_tlv}
use esp_owl.Rx.Announce.{tlv_buf}
use esp_owl.Sync.Windows.{IsValid, current_aw-elapsed, current_eaw_lem, next_aw_bounds}
use esp_owl.Sync.Update.{update_last-IsValid, update_last_adopts}

-- The two fields that a receiver reads, where it reads them.
sync_params_sent :
    (sent : ℕ) (me : AwdlState)
    → let val = tlv_buf (drop 3 (awdl_init_sync_params_tlv sent me)) in
      (read_le16 val (pos 1) ≡ some (u16 (awdl_sync_next_aw_tu sent me.sync)))
      × (read_le16 val (pos 29) ≡ some (u16 (awdl_sync_current_aw sent me.sync)))
unfolding awdl_init_sync_params_tlv read_le16
sync_params_sent sent me =
    let n = length (drop 3 (awdl_init_sync_params_tlv sent me)) in
    let fits : (k : ℕ) → k ≤ 33 → ltb n k ≡ false = λ k h. le→ltb_false n k (omega arith) in
    let time = u16 (awdl_sync_next_aw_tu sent me.sync) in
    let counter = u16 (awdl_sync_current_aw sent me.sync) in
    (
      rw (fits 3 (omega arith), le_value-le_bytes 2 time (omega arith)) refl,
      rw (fits 31 (omega arith), le_value-le_bytes 2 counter (omega arith)) refl,
    )

-- From the master, the handler measures against the two fields as they were sent.
pub sync_params_announced :
    (src : Peer) (me state : AwdlState) (sent now : ℕ)
    → awdl_election_is_sync_master state.election src.addr ≡ true
    → awdl_handle_sync_params_tlv src
        (tlv_buf (drop 3 (awdl_init_sync_params_tlv sent me)))
        state
        now
      ≡ (
        rx_ok,
        record state {
          sync =
              measure now
                (u16 (awdl_sync_next_aw_tu sent me.sync))
                (u16 (awdl_sync_current_aw sent me.sync))
                state.sync;
        },
      )
unfolding awdl_handle_sync_params_tlv
sync_params_announced src me state sent now h =
    let (time, counter) = sync_params_sent sent me in rw (h, time, counter)

either_way {ℓ κ} :
    {A : Type ℓ} {B : Type κ} (f : A → B) (c : Bool) {x y : A} {z : B}
    → f x ≡ z
    → f y ≡ z
    → f (if c then x else y) ≡ z
either_way f true p q = p
either_way f false p q = q

-- What the clock shows depends on the adopted values only, not on the counts of measurements.
measure_reads {ℓ} :
    {A : Type ℓ} (f : SyncState → A) (now time counter : ℕ) (s : SyncState)
    → ((e t : ℕ) (r : SyncState) → f (record r { meas_err = e; meas_total = t }) ≡ f r)
    → f (measure now time counter s) ≡ f (awdl_sync_update_last now time counter s)
unfolding measure awdl_sync_update_last
measure_reads f now time counter s same =
    let t = u64 (s.meas_total + 1) in
    let r = awdl_sync_update_last now time counter s in
    either_way f _ (same (u64 (s.meas_err + 1)) t r) (same s.meas_err t r)

measure-next_aw_tu :
    (now time counter : ℕ) (s : SyncState)
    → awdl_sync_next_aw_tu now (measure now time counter s)
      ≡ awdl_sync_next_aw_tu now (awdl_sync_update_last now time counter s)
unfolding awdl_sync_next_aw_tu
measure-next_aw_tu now time counter s =
    measure_reads (awdl_sync_next_aw_tu now) now time counter s λ e t r. refl

measure-current_eaw :
    (now time counter : ℕ) (s : SyncState)
    → awdl_sync_current_eaw now (measure now time counter s)
      ≡ awdl_sync_current_eaw now (awdl_sync_update_last now time counter s)
unfolding awdl_sync_current_eaw awdl_sync_current_aw
measure-current_eaw now time counter s =
    measure_reads (awdl_sync_current_eaw now) now time counter s λ e t r. refl

-- A valid state stays valid.
pub measure-IsValid :
    (now time counter : ℕ) {s : SyncState}
    → IsValid s
    → counter < 2 ^ 16
    → IsValid (measure now time counter s)
measure-IsValid now time counter {s} w h =
    let r = update_last-IsValid now time counter w h in
    let field : (f : SyncState → ℕ)
        → ((e t : ℕ) (q : SyncState) → f (record q { meas_err = e; meas_total = t }) ≡ f q)
        → f (measure now time counter s) ≡ f (awdl_sync_update_last now time counter s) =
      λ f same. measure_reads f now time counter s same in
    record {
      period = field (λ q. q.aw_period) (λ e t q. refl) ∙ r.period;
      presence = field (λ q. q.presence_mode) (λ e t q. refl) ∙ r.presence;
      counter = omega (arith, field (λ q. q.aw_counter) (λ e t q. refl), r.counter);
      aligned = ap (λ (c : ℕ). c % 4) (field (λ q. q.aw_counter) (λ e t q. refl)) ∙ r.aligned;
      clock = omega (arith, field (λ q. q.last_update) (λ e t q. refl), r.clock);
    }

-- With valid clocks on both sides, a node that takes the synchronization TLV of its master accepts
-- it, keeps a valid clock, and shows the same time to the next EAW
-- and the same EAW counter at the moment of reception as the master when it sent the TLV, each
-- by its own clock.
pub clock_adopted :
    (src : Peer) (me state : AwdlState) (sent now : ℕ)
    → IsValid me.sync
    → IsValid state.sync
    → now < 2 ^ 64
    → awdl_election_is_sync_master state.election src.addr ≡ true
    → let heard =
        awdl_handle_sync_params_tlv src
          (tlv_buf (drop 3 (awdl_init_sync_params_tlv sent me)))
          state
          now in
      (heard.0 ≡ rx_ok)
      × (awdl_sync_next_aw_tu now heard.1.sync ≡ awdl_sync_next_aw_tu sent me.sync)
      × (awdl_sync_current_eaw now heard.1.sync ≡ awdl_sync_current_eaw sent me.sync)
      × IsValid heard.1.sync
clock_adopted src me state sent now v w h master =
    let time = u16 (awdl_sync_next_aw_tu sent me.sync) in
    let counter = u16 (awdl_sync_current_aw sent me.sync) in
    let bounds = next_aw_bounds v sent in
    let adopts =
      update_last_adopts w now time counter h (omega arith) (omega arith) (omega arith) in
    let (next_tu, eaw, _) = adopts in
    let time_same : time ≡ awdl_sync_next_aw_tu sent me.sync = omega (arith, bounds) in
    let eaw_same : counter / 4 ≡ awdl_sync_current_eaw sent me.sync =
      omega (arith, current_aw-elapsed v sent, current_eaw_lem v sent, v.aligned) in
    rw (sync_params_announced src me state sent now master) (
      refl,
      measure-next_aw_tu now time counter state.sync ∙ (next_tu ∙ time_same),
      measure-current_eaw now time counter state.sync ∙ (eaw ∙ eaw_same),
      measure-IsValid now time counter w (omega arith),
    )
