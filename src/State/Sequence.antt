-- ===== src/State/Sequence.antt =====
-- The sequence number of the 802.11 frames, of main/owl/state.c: twelve bits that count around.
use esp_owl.Base.{arith, refl, suc, zero, ℕ, ◌%◌, ◌+◌, ◌<◌, ◌^◌, ◌≡◌}
use esp_owl.Base.Bits.{bit_and-low}
use esp_owl.Sync.{u16}
use esp_owl.State.{Ieee80211State, ieee80211_state_next_sequence_number}

-- The state after some frames.
abbrev pub after_frames : ℕ → Ieee80211State → Ieee80211State
after_frames zero s = s
after_frames (suc n) s = after_frames n (ieee80211_state_next_sequence_number s).1

next_number :
    (s : Ieee80211State)
    → s.sequence_number < 2 ^ 12
    → (ieee80211_state_next_sequence_number s).1.sequence_number ≡ (s.sequence_number + 1) % 2 ^ 12
unfolding ieee80211_state_next_sequence_number
next_number s h =
    let small : u16 (s.sequence_number + 1) ≡ s.sequence_number + 1 = omega (arith, h) in
    rw (small) (bit_and-low 12 (s.sequence_number + 1))

-- The frame that is sent after n others bears the first number plus n, modulo 4096, whatever the
-- checksum flag; the flag stays.
pub number_after_frames :
    (n : ℕ) (s : Ieee80211State)
    → s.sequence_number < 2 ^ 12
    → ((ieee80211_state_next_sequence_number (after_frames n s)).0
        ≡ (s.sequence_number + n) % 2 ^ 12)
      × ((after_frames n s).fcs ≡ s.fcs)
unfolding ieee80211_state_next_sequence_number
number_after_frames zero s h = (omega (arith, h), refl)
number_after_frames (suc n) s h =
    let s' : Ieee80211State = (ieee80211_state_next_sequence_number s).1 in
    let one = next_number s h in
    let (number, fcs) = number_after_frames n s' (omega (arith, one)) in
    (omega (arith, number, one), fcs)
