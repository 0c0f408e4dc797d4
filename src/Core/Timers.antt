-- ===== src/Core/Timers.antt =====
-- main/wifi/core.c: the channel that a node is on, and the times to which its timers are set.
use esp_owl.Base.{
  ==_iff, Bool-cases, Option, Option-cases, Ordering-cases, ap, arith, get_or, inl, inr, none, refl,
  set, some, suc, sym, zero, ℕ, ◌%◌, ◌+◌, ◌<◌, ◌==◌, ◌^◌, ◌∙◌, ◌≡◌, ◌⊎◌,
}
use esp_owl.Channel.{awdl_chan_num, chan_null}
use esp_owl.Sync.{awdl_sync_current_eaw, ieee80211_tu_to_usec}
use esp_owl.Sync.Windows.{IsValid, current_eaw-next_aw_us, next_aw_us_lem}
use esp_owl.State.{AwdlState}
use esp_owl.Schedule.{awdl_can_send_unicast_in}
use esp_owl.Peers.{Peer}
use esp_owl.Peers.Table.{PeerMap}
use esp_owl.Wire.{Buf, read_ether_addr}
use esp_owl.Base.Int.{neg_part, negsuc, pos, pos_part, ℤ}
use esp_owl.Ethernet.{EtherAddr, compare_ether_addr}
use mathlib.Core.Option.{none-ne-some, some-injective}
use esp_owl.Core.Daemon.{
  Daemon, awdl_send_unicast, awdl_switch_channel, rearm, rearm_time, send_next, try_unicast,
  unicast_step,
}

-- The slot of the channel sequence at a time.
abbrev pub slot_at : ℕ → AwdlState → ℕ
slot_at now state = awdl_sync_current_eaw now state.sync % 16

abbrev pub slot_number : ℕ → AwdlState → ℕ
slot_number now state =
    awdl_chan_num (get_or state.channel.sequence (slot_at now state) chan_null) state.channel.enc

switched :
    (state : AwdlState) (now : ℕ)
    → let after = (awdl_switch_channel now state).0 in
      ((slot_number now state ≡ 0) × (after ≡ state))
      ⊎ (awdl_chan_num after.channel.current after.channel.enc ≡ slot_number now state)
unfolding awdl_switch_channel
switched state now =
    let new = slot_number now state in
    let old = awdl_chan_num state.channel.current state.channel.enc in
    elim (Bool-cases (new == 0)) [
      | inl none_there ↦
          rw (awdl_switch_channel, none_there) (inl ((==_iff new 0).0 none_there, refl))
      | inr there ↦ elim (Bool-cases (new == old)) [
        | inl same ↦ rw (awdl_switch_channel, there, same) (inr (sym ((==_iff new old).0 same)))
        | inr other ↦ rw (awdl_switch_channel, there, other) (inr refl)
      ]
    ]

-- After the channel timer the node is on the channel of the slot, or it was left as it was when
-- the slot has none. The timer is set to the begin of the next slot: until then the slot stays,
-- and then it is the next one of the 16, around the end of the sequence.
pub switch_channel_lem :
    (state : AwdlState) (now early : ℕ)
    → IsValid state.sync
    → now + (awdl_switch_channel now state).1 < 2 ^ 64
    → early < (awdl_switch_channel now state).1
    → let (after, timer) = awdl_switch_channel now state in
      (((slot_number now state ≡ 0) × (after ≡ state))
        ⊎ (awdl_chan_num after.channel.current after.channel.enc ≡ slot_number now state))
      × (slot_at (now + timer) state ≡ (slot_at now state + 1) % 16)
      × (slot_at (now + early) state ≡ slot_at now state)
unfolding awdl_switch_channel
switch_channel_lem state now early v later soon =
    let (next, same) = current_eaw-next_aw_us v now early later soon in
    (switched state now, omega (arith, next), omega (arith, same))

Wait-cases : (z : ℤ) → (z ≡ pos 0) ⊎ (((n : ℕ) × (z ≡ pos (suc n))) ⊎ ((n : ℕ) × (z ≡ negsuc n)))
Wait-cases (pos zero) = inl refl
Wait-cases (pos (suc n)) = inr (inl (n, refl))
Wait-cases (negsuc n) = inr (inr (n, refl))

module _ (state : AwdlState) (peer : Peer) (now : ℕ) (v : IsValid state.sync) where
  -- No wait of the schedule reaches a second, in either direction.
  unicast_wait :
      (pos_part (awdl_can_send_unicast_in state peer now 3) < 1000000)
      × (neg_part (awdl_can_send_unicast_in state peer now 3) < 100000)
  unfolding awdl_can_send_unicast_in ieee80211_tu_to_usec
  unicast_wait = (ground (arith, next_aw_us_lem v now), ground (arith, next_aw_us_lem v now))

try_wait :
    (M : PeerMap) (wait : ℤ) (buf : Buf) (d : Daemon M)
    → pos_part wait < 1000000
    → neg_part wait < 100000
    → rearm_time (try_unicast M wait buf d).1 ≡ 0
unfolding try_unicast rearm_time ieee80211_tu_to_usec
try_wait M (pos zero) buf d h g = refl
try_wait M (pos (suc n)) buf d h g = omega (arith, h)
try_wait M (negsuc n) buf d h g = omega (arith, g)

step_wait :
    (M : PeerMap) (now : ℕ) (buf : Buf) (dst : EtherAddr) (d : Daemon M)
    → IsValid d.radio.node.sync
    → rearm_time (unicast_step M now buf dst d).1 ≡ 0
unfolding unicast_step rearm_time
step_wait M now buf dst d v =
    elim (Ordering-cases (compare_ether_addr dst d.radio.node.self_address)) [
      | inr (inl eq) ↦ rw (unicast_step, eq) refl
      | inl lt ↦ elim (Option-cases (M.get d.peers dst)) [
        | inl missing ↦ rw (unicast_step, lt, missing) refl
        | inr (peer, known) ↦
            let (h, g) = unicast_wait d.radio.node peer now v in
            rw (unicast_step, lt, known) (try_wait M _ buf d h g)
      ]
      | inr (inr gt) ↦ elim (Option-cases (M.get d.peers dst)) [
        | inl missing ↦ rw (unicast_step, gt, missing) refl
        | inr (peer, known) ↦
            let (h, g) = unicast_wait d.radio.node peer now v in
            rw (unicast_step, gt, known) (try_wait M _ buf d h g)
      ]
    ]

rearmed :
    (M : PeerMap) (left : Option Buf) (wait : ℤ) (time : ℕ)
    → rearm M left wait ≡ some time
    → time ≡ rearm_time wait
rearmed M none wait time set = absurd (none-ne-some time set)
rearmed M (some buf) wait time set = sym (some-injective (rearm_time wait) time set)

next_rearm :
    (M : PeerMap) (stack : EtherAddr) (now : ℕ) (next : Option Buf) (d : Daemon M) (time : ℕ)
    → IsValid d.radio.node.sync
    → (send_next M stack now next d).1 ≡ some time
    → time ≡ 0
unfolding send_next
next_rearm M stack now none d time v set = absurd (none-ne-some time set)
next_rearm M stack now (some buf) d time v set =
    let dst : EtherAddr = elim (read_ether_addr buf (pos 0)) [ none ↦ stack | some a ↦ a ] in
    let r = unicast_step M now buf dst d in
    rearmed M r.0.next r.1 time set ∙ step_wait M now buf dst d v

-- The timer for unicast packets is not set again, or it is set to 0 microseconds, however long the
-- packet that is left has to wait.
pub send_unicast-rearm :
    (M : PeerMap) (stack : EtherAddr) (now : ℕ) (d : Daemon M)
    → IsValid d.radio.node.sync
    → ((awdl_send_unicast M stack now d).1 ≡ none) ⊎ ((awdl_send_unicast M stack now d).1 ≡ some 0)
unfolding awdl_send_unicast
send_unicast-rearm M stack now d v = elim (Option-cases (send_next M stack now d.next d).1) [
  | inl unset ↦ inl unset
  | inr (time, set) ↦ inr (set ∙ ap some (next_rearm M stack now d.next d time v set))
]
