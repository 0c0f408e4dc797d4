-- ===== src/Frame.antt =====
-- main/owl/frame.h: the constants of the AWDL frames, and the fields of their headers.
use esp_owl.Base.{List, [], ℕ, ◌∷◌}
use esp_owl.Ethernet.{EtherAddr}

-- `enum awdl_tlvs`, the types that are handled
abbrev pub synchronization_parameters_tlv : ℕ
synchronization_parameters_tlv = 4

abbrev pub election_parameters_tlv : ℕ
election_parameters_tlv = 5

abbrev pub data_path_state_tlv : ℕ
data_path_state_tlv = 12

abbrev pub arpa_tlv : ℕ
arpa_tlv = 16

abbrev pub chan_seq_tlv : ℕ
chan_seq_tlv = 18

abbrev pub version_tlv : ℕ
version_tlv = 21

abbrev pub election_parameters_v2_tlv : ℕ
election_parameters_v2_tlv = 24

abbrev pub service_parameters_tlv : ℕ
service_parameters_tlv = 6

abbrev pub enhanced_data_rate_capabilities_tlv : ℕ
enhanced_data_rate_capabilities_tlv = 7

abbrev pub flag_country_code : ℕ
flag_country_code = 0x0100

abbrev pub flag_social_channel_map : ℕ
flag_social_channel_map = 0x0200

abbrev pub flag_infra_info : ℕ
flag_infra_info = 0x0001

abbrev pub flag_infra_address : ℕ
flag_infra_address = 0x0002

abbrev pub flag_awdl_address : ℕ
flag_awdl_address = 0x0004

abbrev pub action_psf : ℕ
action_psf = 0

abbrev pub action_mif : ℕ
action_mif = 3

abbrev pub awdl_oui : List ℕ
awdl_oui = 0x00 ∷ 0x17 ∷ 0xf2 ∷ []

abbrev pub ieee80211_vendor_specific : ℕ
ieee80211_vendor_specific = 127

abbrev pub awdl_type : ℕ
awdl_type = 8

abbrev pub awdl_version_compat : ℕ
awdl_version_compat = 0x10

-- `sizeof(struct awdl_action)`
abbrev pub action_hdr_len : ℕ
action_hdr_len = 16

abbrev pub awdl_llc_protocol_id : ℕ
awdl_llc_protocol_id = 0x0800

abbrev pub awdl_bssid : EtherAddr
awdl_bssid = record {
  octet0 = 0x00;
  octet1 = 0x25;
  octet2 = 0x00;
  octet3 = 0xff;
  octet4 = 0x94;
  octet5 = 0x73;
}
