-- ===== src/State/Tests.antt =====
-- The state of main/owl/state.c after its initialisation, and its sequence numbers.
use esp_owl.Base.{arith, true, ◌%◌, ◌+◌, ◌^◌, ◌≡◌}
use esp_owl.State.{Ieee80211State, ieee80211_state_next_sequence_number}
use esp_owl.State.Sequence.{after_frames, number_after_frames}

abbrev last_number : Ieee80211State
last_number = record { sequence_number = 4094; fcs = true }

number_after_frames_example :
    ((ieee80211_state_next_sequence_number (after_frames 3 last_number)).0 ≡ (4094 + 3) % 2 ^ 12)
    × ((after_frames 3 last_number).fcs ≡ true)
number_after_frames_example = number_after_frames 3 last_number (omega arith)
