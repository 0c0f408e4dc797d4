-- ===== src/Channel/Tests.antt =====
-- main/owl/channel.c at some channels.
use esp_owl.Base.{◌⊎◌, [], arith, inr, map, refl, ◌↔◌, ◌∷◌, ◌≡◌}
use esp_owl.Base.Int.{negsuc, pos}
use esp_owl.Channel.{
  awdl_chan_num, awdl_chanseq_init_idle, enc_opclass, ieee80211_channel_to_frequency,
  ieee80211_frequency_to_channel,
}
use esp_owl.Channel.Frequency.{
  HasNone, channel_to_frequency-eq_iff, frequency_to_channel-channel_to_frequency,
}

idle_sequence :
    map (λ c. awdl_chan_num c enc_opclass) awdl_chanseq_init_idle
    ≡ 149 ∷ 0 ∷ 0 ∷ 0 ∷ 0 ∷ 0 ∷ 0 ∷ 0 ∷ 6 ∷ 149 ∷ 149 ∷ 0 ∷ 0 ∷ 0 ∷ 0 ∷ 0 ∷ []
unfolding awdl_chanseq_init_idle awdl_chan_num
idle_sequence = refl

frequencies :
    (ieee80211_channel_to_frequency (pos 6) ≡ pos 2437)
    × (ieee80211_channel_to_frequency (pos 149) ≡ pos 5745)
    × (ieee80211_frequency_to_channel (pos 5745) ≡ pos 149)
    × (ieee80211_frequency_to_channel (pos 2400) ≡ negsuc 0)
unfolding ieee80211_channel_to_frequency ieee80211_frequency_to_channel
frequencies = (refl, refl, refl, refl)

frequency_to_channel-channel_to_frequency_example :
    ieee80211_frequency_to_channel (ieee80211_channel_to_frequency (pos 149)) ≡ pos 149
frequency_to_channel-channel_to_frequency_example =
    frequency_to_channel-channel_to_frequency 149 (inr (omega arith))

channel_to_frequency-eq_iff_example :
    ((ieee80211_channel_to_frequency (pos 196) ≡ pos 0) ↔ HasNone (pos 196))
    × ((ieee80211_channel_to_frequency (pos 196) ≡ ieee80211_channel_to_frequency (negsuc 3))
        ↔ ((pos 196 ≡ negsuc 3) ⊎ (HasNone (pos 196) × HasNone (negsuc 3))))
channel_to_frequency-eq_iff_example = channel_to_frequency-eq_iff (pos 196) (negsuc 3)
