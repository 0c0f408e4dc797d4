-- ===== src/Tx/Tlvs.antt =====
-- main/owl/tx.c: the TLVs of an action frame.
use esp_owl.Base.{
  List, [], be_bytes, if◌then◌else◌, le_bytes, length, ltb, take, ℕ, ◌%◌, ◌*◌, ◌++◌, ◌+◌, ◌-◌, ◌==◌,
  ◌∷◌,
}
use esp_owl.Ethernet.{octets}
use esp_owl.Channel.{Chan, awdl_chan_encoding_length, awdl_chan_num, chanseq_length, enc_opclass}
use esp_owl.Sync.{SyncState, awdl_sync_current_aw, awdl_sync_next_aw_tu, u16}
use esp_owl.Election.{ElectionState}
use esp_owl.State.{AwdlState}
use esp_owl.Frame.{
  data_path_state_tlv, arpa_tlv, chan_seq_tlv, election_parameters_tlv, election_parameters_v2_tlv,
  enhanced_data_rate_capabilities_tlv, service_parameters_tlv, synchronization_parameters_tlv,
  version_tlv,
}

-- `uint8_t` and little endian `uint16_t` and `uint32_t` fields
abbrev pub u8_field : ℕ → List ℕ
u8_field v = v % 256 ∷ []

abbrev pub le16_field : ℕ → List ℕ
le16_field v = le_bytes 2 v

abbrev pub le32_field : ℕ → List ℕ
le32_field v = le_bytes 4 v

abbrev pub chan_bytes : ℕ → List Chan → List ℕ
chan_bytes enc_len [] = []
chan_bytes enc_len (c ∷ cs) = take enc_len (c.val0 ∷ c.val1 ∷ []) ++ chan_bytes enc_len cs

unfoldable pub awdl_init_chanseq : AwdlState → List ℕ
awdl_init_chanseq state =
    u8_field (chanseq_length - 1)
    ++ (u8_field state.channel.enc
        ++ (u8_field 0
            ++ (u8_field 3
                ++ (le16_field 0xffff
                    ++ chan_bytes (awdl_chan_encoding_length state.channel.enc)
                        state.channel.sequence))))

-- `len - sizeof(struct tl)`, where `rest` follows the length field.
abbrev pub tlv_of : ℕ → List ℕ → List ℕ
tlv_of type rest = type ∷ (le16_field (length rest) ++ rest)

-- The time left of the current AW: 0 as long as the counter is at most what precedes it.
unfoldable pub remaining_aw_length : ℕ → ℕ → ℕ → ℕ → ℕ
remaining_aw_length aw period presence tx =
    if ltb (aw + tx) (period * presence) then 0 else aw + tx - period * presence

-- `now` is the one reading of the clock.
unfoldable pub awdl_init_sync_params_tlv : ℕ → AwdlState → List ℕ
awdl_init_sync_params_tlv now state =
    let s : SyncState = state.sync in
    let enc : ℕ = state.channel.enc in
    let period : ℕ = u16 s.aw_period in
    let presence : ℕ = s.presence_mode % 256 in
    let tx : ℕ = u16 (awdl_sync_next_aw_tu now s) in
    let seq : ℕ = u16 (awdl_sync_current_aw now s) in
    let extent : List ℕ = u8_field (s.presence_mode + 255) in
    tlv_of synchronization_parameters_tlv (
      u8_field (awdl_chan_num state.channel.current enc)
      ++ (le16_field tx
          ++ (u8_field (awdl_chan_num state.channel.master enc)
              ++ (u8_field 0
                  ++ (le16_field period
                      ++ (le16_field state.psf_interval
                          ++ (le16_field 0x1800
                              ++ (le16_field period
                                  ++ (le16_field period
                                      ++ (le16_field (remaining_aw_length period period presence tx)
                                          ++ (extent
                                              ++ (extent
                                                  ++ (extent
                                                      ++ (extent
                                                          ++ (octets state.election.master_addr
                                                            ++ (u8_field presence
                                                            ++ (u8_field 0
                                                            ++ (le16_field seq
                                                            ++ (le16_field seq
                                                            ++ (awdl_init_chanseq state
                                                            ++ (0 ∷ 0 ∷ [])))))))))))))))))))))

unfoldable pub awdl_init_chanseq_tlv : AwdlState → List ℕ
awdl_init_chanseq_tlv state = tlv_of chan_seq_tlv (awdl_init_chanseq state ++ (0 ∷ 0 ∷ 0 ∷ []))

unfoldable pub awdl_init_election_params_tlv : AwdlState → List ℕ
awdl_init_election_params_tlv state =
    let e : ElectionState = state.election in
    u8_field election_parameters_tlv
    ++ (le16_field 21
        ++ (u8_field 0
            ++ (le16_field 0
                ++ (u8_field e.height
                    ++ (u8_field 0
                        ++ (octets e.master_addr
                            ++ (le32_field e.master_metric
                                ++ (le32_field e.self_metric ++ (0 ∷ 0 ∷ [])))))))))

unfoldable pub awdl_init_election_params_v2_tlv : AwdlState → List ℕ
awdl_init_election_params_v2_tlv state =
    let e : ElectionState = state.election in
    u8_field election_parameters_v2_tlv
    ++ (le16_field 40
        ++ (octets e.master_addr
            ++ (octets e.sync_addr
                ++ (le32_field e.master_counter
                    ++ (le32_field e.height
                        ++ (le32_field e.master_metric
                            ++ (le32_field e.self_metric
                                ++ (le32_field 0
                                    ++ (le32_field 0 ++ le32_field e.self_counter)))))))))

unfoldable pub awdl_init_service_params_tlv : AwdlState → List ℕ
awdl_init_service_params_tlv state =
    u8_field service_parameters_tlv
    ++ (le16_field 9 ++ (0 ∷ 0 ∷ 0 ∷ (le16_field 0 ++ le32_field 0)))

unfoldable pub awdl_init_ht_capabilities_tlv : AwdlState → List ℕ
awdl_init_ht_capabilities_tlv state =
    u8_field enhanced_data_rate_capabilities_tlv
    ++ (le16_field 8
        ++ (le16_field 0
            ++ (le16_field 0x11ce ++ (u8_field 0x1b ++ (u8_field 0xff ++ le16_field 0)))))

unfoldable pub social_channel_bit : ℕ → ℕ
social_channel_bit chan = if chan == 6 then 0x0001 else if chan == 44 then 0x0002 else 0x0004

unfoldable pub awdl_init_data_path_state_tlv : AwdlState → List ℕ
awdl_init_data_path_state_tlv state =
    u8_field data_path_state_tlv
    ++ (le16_field 15
        ++ (le16_field 0x8f24
            ++ (b'X'
                ∷ b'0'
                ∷ 0
                ∷ (le16_field (social_channel_bit (awdl_chan_num state.channel.master enc_opclass))
                    ++ (octets state.self_address ++ le16_field 0)))))

abbrev pub awdl_dns_short_local : ℕ
awdl_dns_short_local = 0xc00c

unfoldable pub awdl_init_arpa_tlv : AwdlState → List ℕ
awdl_init_arpa_tlv state =
    let len : ℕ = length state.name in
    u8_field arpa_tlv
    ++ (le16_field (3 + len + 1)
        ++ (u8_field 3 ++ (u8_field len ++ (state.name ++ be_bytes 2 awdl_dns_short_local))))

unfoldable pub awdl_init_version_tlv : AwdlState → List ℕ
awdl_init_version_tlv state =
    u8_field version_tlv ++ (le16_field 2 ++ (u8_field state.version ++ u8_field state.dev_class))
