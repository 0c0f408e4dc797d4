-- ===== src/Channel.antt =====
-- main/owl/channel.c and channel.h, and `awdl_chan_encoding_length` of main/owl/tx.c.
mod Frequency
mod Tests
use esp_owl.Base.{
  List, [], if◌then◌else◌, leb, ltb, suc, zero, ℕ, ◌&&◌, ◌*◌, ◌+◌, ◌-◌, ◌/◌, ◌==◌, ◌||◌, ◌∷◌,
}
use esp_owl.Base.Int.{negsuc, pos, quot_ℤ, sub_ℕ, ℤ}

-- `enum awdl_chan_encoding`; handlers also pass other bytes where one is expected.
abbrev pub enc_simple : ℕ
enc_simple = 0

abbrev pub enc_legacy : ℕ
enc_legacy = 1

abbrev pub enc_opclass : ℕ
enc_opclass = 3

abbrev pub chanseq_length : ℕ
chanseq_length = 16

-- `struct awdl_chan`: the two bytes of the union. `chan_num` is the first in the simple and the
-- opclass view, and the second, behind `flags`, in the legacy view.
pub record Chan : Type 0 where
  pub val0 : ℕ
  pub val1 : ℕ

abbrev pub chan_null : Chan
chan_null = record { val0 = 0; val1 = 0x00 }

abbrev pub chan_opclass_6 : Chan
chan_opclass_6 = record { val0 = 6; val1 = 0x51 }

abbrev pub chan_opclass_44 : Chan
chan_opclass_44 = record { val0 = 44; val1 = 0x80 }

abbrev pub chan_opclass_149 : Chan
chan_opclass_149 = record { val0 = 149; val1 = 0x80 }

unfoldable pub awdl_chan_num : Chan → ℕ → ℕ
awdl_chan_num chan enc =
    if enc == enc_simple
    then chan.val0
    else if enc == enc_legacy
    then chan.val1
    else if enc == enc_opclass
    then chan.val0
    else 0

unfoldable pub awdl_chan_encoding_size : ℕ → ℤ
awdl_chan_encoding_size enc =
    if enc == enc_simple
    then pos 1
    else if enc == enc_legacy || enc == enc_opclass
    then pos 2
    else negsuc 0

unfoldable pub awdl_chan_encoding_length : ℕ → ℕ
awdl_chan_encoding_length enc =
    if enc == enc_simple then 1 else if enc == enc_legacy || enc == enc_opclass then 2 else 0

-- `for (i = …; i < AWDL_CHANSEQ_LENGTH; i++, seq++) *seq = slot(i)`, by the slots left.
fill_from : ℕ → ℕ → (ℕ → Chan) → List Chan
fill_from zero i slot = []
fill_from (suc left) i slot = slot i ∷ fill_from left (i + 1) slot

unfoldable pub awdl_chanseq_init : List Chan
unfolding fill_from
awdl_chanseq_init =
    fill_from chanseq_length 0 (λ i. if ltb i 8 then chan_opclass_149 else chan_opclass_6)

unfoldable pub awdl_chanseq_init_idle : List Chan
unfolding fill_from
awdl_chanseq_init_idle = fill_from chanseq_length 0 λ i.
    if i == 8
    then chan_opclass_6
    else if i == 0 || (i == 9 || i == 10)
    then chan_opclass_149
    else chan_null

unfoldable pub awdl_chanseq_init_static : Chan → List Chan
unfolding fill_from
awdl_chanseq_init_static chan = fill_from chanseq_length 0 (λ _. chan)

-- `int` arguments and results; a channel number is small enough that nothing overflows.
pub ieee80211_channel_to_frequency : ℤ → ℤ
ieee80211_channel_to_frequency (negsuc _) = pos 0
ieee80211_channel_to_frequency (pos chan) =
    if chan == 0
    then pos 0
    else if chan == 14
    then pos 2484
    else if ltb chan 14
    then pos (2407 + chan * 5)
    else if ltb chan 32
    then pos 0
    else if leb 182 chan && leb chan 196
    then pos (4000 + chan * 5)
    else pos (5000 + chan * 5)

-- Each subtraction but the first is of a smaller number; the division rounds towards zero.
pub ieee80211_frequency_to_channel : ℤ → ℤ
ieee80211_frequency_to_channel (negsuc n) = quot_ℤ (sub_ℕ 0 (suc n + 2407)) 5
ieee80211_frequency_to_channel (pos freq) =
    if freq == 2484
    then pos 14
    else if ltb freq 2484
    then quot_ℤ (sub_ℕ freq 2407) 5
    else if leb 4910 freq && leb freq 4980
    then pos ((freq - 4000) / 5)
    else if leb freq 45000
    then quot_ℤ (sub_ℕ freq 5000) 5
    else if leb 58320 freq && leb freq 64800
    then pos ((freq - 56160) / 2160)
    else pos 0
