-- ===== src/Tx/Frames.antt =====
-- main/owl/tx.c: the headers and the two kinds of frames that a node sends.
use esp_owl.Base.{List, [], be_bytes, if◌then◌else◌, ℕ, ◌*◌, ◌++◌, ◌==◌, ◌∷◌}
use esp_owl.Ethernet.{EtherAddr, octets}
use esp_owl.State.{
  AwdlState, Ieee80211State, awdl_state_next_sequence_number, ieee80211_state_next_sequence_number,
}
use esp_owl.Frame.{
  action_mif, awdl_bssid, awdl_llc_protocol_id, awdl_oui, awdl_type, awdl_version_compat,
  ieee80211_vendor_specific,
}
use esp_owl.Crc32.{crc32}
use esp_owl.Tx.Tlvs.{
  awdl_init_arpa_tlv, awdl_init_chanseq_tlv, awdl_init_data_path_state_tlv,
  awdl_init_election_params_tlv, awdl_init_election_params_v2_tlv, awdl_init_ht_capabilities_tlv,
  awdl_init_service_params_tlv, awdl_init_sync_params_tlv, awdl_init_version_tlv, le16_field,
  le32_field, u8_field,
}

abbrev pub awdl_data_head : ℕ
awdl_data_head = 0x0403

abbrev pub eth_p_ipv6 : ℕ
eth_p_ipv6 = 0x86dd

abbrev pub be16_field : ℕ → List ℕ
be16_field v = be_bytes 2 v

-- The bytes, and the state after the sequence number is taken.
unfoldable pub awdl_init_data : AwdlState → List ℕ × AwdlState
unfolding awdl_state_next_sequence_number
awdl_init_data state =
    let (seq, state') = awdl_state_next_sequence_number state in
    (
      le16_field awdl_data_head ++ (le16_field seq ++ (le16_field 0 ++ be16_field eth_p_ipv6)),
      state',
    )

unfoldable pub awdl_init_action : ℕ → ℕ → List ℕ
awdl_init_action now type =
    u8_field ieee80211_vendor_specific
    ++ (awdl_oui
        ++ (u8_field awdl_type
            ++ (u8_field awdl_version_compat
                ++ (u8_field type ++ (u8_field 0 ++ (le32_field now ++ le32_field now))))))

unfoldable pub ieee80211_init_awdl_hdr :
    EtherAddr → EtherAddr → Ieee80211State → ℕ → List ℕ × Ieee80211State
unfolding ieee80211_state_next_sequence_number
ieee80211_init_awdl_hdr src dst state type =
    let (seq, state') = ieee80211_state_next_sequence_number state in
    (
      le16_field type
          ++ (le16_field 0
              ++ (octets dst ++ (octets src ++ (octets awdl_bssid ++ le16_field (seq * 16))))),
      state',
    )

-- `IEEE80211_FTYPE_MGMT | IEEE80211_STYPE_ACTION`
unfoldable pub ieee80211_init_awdl_action_hdr :
    EtherAddr → EtherAddr → Ieee80211State → List ℕ × Ieee80211State
unfolding ieee80211_init_awdl_hdr
ieee80211_init_awdl_action_hdr src dst state = ieee80211_init_awdl_hdr src dst state 0x00d0

-- `IEEE80211_FTYPE_DATA | IEEE80211_STYPE_DATA`
unfoldable pub ieee80211_init_awdl_data_hdr :
    EtherAddr → EtherAddr → Ieee80211State → List ℕ × Ieee80211State
unfolding ieee80211_init_awdl_hdr
ieee80211_init_awdl_data_hdr src dst state = ieee80211_init_awdl_hdr src dst state 0x0008

unfoldable pub llc_init_awdl_hdr : List ℕ
llc_init_awdl_hdr =
    u8_field 0xaa
    ++ (u8_field 0xaa ++ (u8_field 0x03 ++ (awdl_oui ++ be16_field awdl_llc_protocol_id)))

unfoldable pub ieee80211_add_fcs : List ℕ → List ℕ
unfolding crc32
ieee80211_add_fcs frame = le32_field (crc32 frame)

abbrev pub with_fcs : Ieee80211State → List ℕ → List ℕ
with_fcs state frame = if state.fcs then frame ++ ieee80211_add_fcs frame else frame

-- The TLVs of an action frame; two of them are sent in a MIF only. `now` is the time at which
-- the one that holds a time is made.
unfoldable pub action_tlvs : ℕ → AwdlState → ℕ → List (List ℕ)
action_tlvs now state type =
    awdl_init_sync_params_tlv now state
      ∷ awdl_init_election_params_tlv state
      ∷ awdl_init_chanseq_tlv state
      ∷ awdl_init_election_params_v2_tlv state
      ∷ awdl_init_service_params_tlv state
      ∷ (if type == action_mif
          then awdl_init_ht_capabilities_tlv state ∷ awdl_init_arpa_tlv state ∷ []
          else [])
    ++ (awdl_init_data_path_state_tlv state ∷ awdl_init_version_tlv state ∷ [])

abbrev pub concat : List (List ℕ) → List ℕ
concat [] = []
concat (xs ∷ rest) = xs ++ concat rest

-- `started` and `now` are the two readings of the clock.
unfoldable pub awdl_init_full_action_frame :
    ℕ → ℕ → AwdlState → Ieee80211State → ℕ → List ℕ × Ieee80211State
unfolding ieee80211_init_awdl_action_hdr awdl_init_action action_tlvs ieee80211_add_fcs
awdl_init_full_action_frame started now state ieee type =
    let (hdr, ieee') = ieee80211_init_awdl_action_hdr state.self_address state.dst ieee in
    (
      with_fcs ieee'
          (hdr ++ (awdl_init_action started type ++ concat (action_tlvs now state type))),
      ieee',
    )

unfoldable pub awdl_init_full_data_frame :
    EtherAddr
    → EtherAddr
    → List ℕ
    → AwdlState
    → Ieee80211State
    → List ℕ × AwdlState × Ieee80211State
unfolding ieee80211_init_awdl_data_hdr llc_init_awdl_hdr awdl_init_data ieee80211_add_fcs
awdl_init_full_data_frame src dst payload state ieee =
    let (hdr, ieee') = ieee80211_init_awdl_data_hdr src dst ieee in
    let (data_hdr, state') = awdl_init_data state in
    (with_fcs ieee' (hdr ++ (llc_init_awdl_hdr ++ (data_hdr ++ payload))), state', ieee')
