-- ===== src/Channel/Frequency.antt =====
-- The two conversions of main/owl/channel.c between channels and frequencies.
use esp_owl.Base.{ap, sym, ◌∙◌, arith, inl, inr, refl, ℕ, ◌<◌, ◌↔◌, ◌≡◌, ◌≤◌, ◌⊎◌}
use esp_owl.Base.Int.{negsuc, pos, ℤ}
use esp_owl.Channel.{ieee80211_channel_to_frequency, ieee80211_frequency_to_channel}

-- The channels that have a frequency.
abbrev pub IsSupported : ℕ → Type 0
IsSupported chan = (0 < chan) × (chan ≤ 14) ⊎ (32 ≤ chan) × (chan ≤ 8000)

-- A supported channel is found again from its frequency, in both bands, at their edges and
-- in the range of 182 to 196 that counts from 4000 MHz.
pub frequency_to_channel-channel_to_frequency :
    (chan : ℕ)
    → IsSupported chan
    → ieee80211_frequency_to_channel (ieee80211_channel_to_frequency (pos chan)) ≡ pos chan
unfolding ieee80211_frequency_to_channel ieee80211_channel_to_frequency
frequency_to_channel-channel_to_frequency chan (inl h) = ground arith
frequency_to_channel-channel_to_frequency chan (inr h) = ground arith

-- The channels up to 0, the negative ones included, and from 15 to 31.
abbrev pub HasNone : ℤ → Type 0
HasNone (pos chan) = (chan ≡ 0) ⊎ (15 ≤ chan) × (chan ≤ 31)
HasNone (negsuc n) = Unit

-- Frequency 0 marks exactly the channels up to 0, the negative ones included, and from 15 to 31.
channel_to_frequency-eq-zero_iff :
    (chan : ℤ) → (ieee80211_channel_to_frequency chan ≡ pos 0) ↔ HasNone chan
unfolding ieee80211_channel_to_frequency
channel_to_frequency-eq-zero_iff (pos chan) = ground arith
channel_to_frequency-eq-zero_iff (negsuc n) = ((λ _. tt), (λ _. refl))

-- Above 0, no frequency belongs to two channels.
same_forward :
    (m n : ℕ)
    → ieee80211_channel_to_frequency (pos m) ≡ ieee80211_channel_to_frequency (pos n)
    → (m ≡ n) ⊎ (HasNone (pos m) × HasNone (pos n))
unfolding ieee80211_channel_to_frequency
same_forward m n e = ground (arith, e)

same_forward_any :
    (i j : ℤ)
    → ieee80211_channel_to_frequency i ≡ ieee80211_channel_to_frequency j
    → (i ≡ j) ⊎ (HasNone i × HasNone j)
same_forward_any (pos m) (pos n) e = elim (same_forward m n e) [
  | inl same ↦ inl (ap pos same)
  | inr both ↦ inr both
]
same_forward_any (negsuc m) j e =
    let none_first = (channel_to_frequency-eq-zero_iff (negsuc m)).1 tt in
    inr (tt, (channel_to_frequency-eq-zero_iff j).0 (sym e ∙ none_first))
same_forward_any (pos m) (negsuc n) e =
    let none_second = (channel_to_frequency-eq-zero_iff (negsuc n)).1 tt in
    inr ((channel_to_frequency-eq-zero_iff (pos m)).0 (e ∙ none_second), tt)

-- Of all integers, exactly the channels up to 0, the negative ones included, and from 15 to 31 have
-- the frequency 0, and any two channels have the same frequency exactly when they are the same or
-- both have the frequency 0.
pub channel_to_frequency-eq_iff :
    (i j : ℤ)
    → ((ieee80211_channel_to_frequency i ≡ pos 0) ↔ HasNone i)
      × ((ieee80211_channel_to_frequency i ≡ ieee80211_channel_to_frequency j)
          ↔ ((i ≡ j) ⊎ (HasNone i × HasNone j)))
channel_to_frequency-eq_iff i j = (
  channel_to_frequency-eq-zero_iff i,
  (
    same_forward_any i j,
    λ h. elim h [
      | inl same ↦ ap ieee80211_channel_to_frequency same
      | inr (a, b) ↦
          (channel_to_frequency-eq-zero_iff i).1 a ∙ sym ((channel_to_frequency-eq-zero_iff j).1 b)
    ],
  ),
)
