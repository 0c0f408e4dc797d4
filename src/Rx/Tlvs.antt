-- ===== src/Rx/Tlvs.antt =====
-- main/owl/rx.c: the handlers of the TLVs in an action frame.
use esp_owl.Rx.{
  Statement, assign, finish, next, return_if, rx_ignore, rx_ok, rx_unexpected_value, try, ◌>>=◌,
  ◌>>◌,
}
use esp_owl.Base.{
  Bool, List, [], bit_and, get_or, if◌then◌else◌, ltb, not, true, ℕ, ◌+◌, ◌==◌, ◌||◌, ◌∷◌,
}
use esp_owl.Base.Int.{ltb_ℤ, neg_part, pos, pos_part, ℤ}
use esp_owl.Wire.{
  Buf, read_bytes_copy, read_ether_addr, read_int_string, read_le16, read_le32, read_u8,
}
use esp_owl.Channel.{Chan, awdl_chan_encoding_size, chanseq_length}
use esp_owl.Sync.{SyncState, awdl_sync_error_tu, awdl_sync_update_last, u64}
use esp_owl.Election.{ElectionState, awdl_election_is_sync_master}
use esp_owl.Peers.{Peer, host_name_length_max}
use esp_owl.State.{AwdlState}
use esp_owl.Frame.{
  data_path_state_tlv, arpa_tlv, chan_seq_tlv, election_parameters_tlv, election_parameters_v2_tlv,
  flag_awdl_address, flag_country_code, flag_infra_address, flag_infra_info,
  flag_social_channel_map, synchronization_parameters_tlv, version_tlv,
}

abbrev pub sync_threshold : ℕ
sync_threshold = 3

-- `sync_err_tu > threshold || sync_err_tu < -threshold`
unfoldable pub is_sync_error : ℤ → Bool
is_sync_error e = ltb sync_threshold (pos_part e) || ltb sync_threshold (neg_part e)

-- The part after the two reads: the error is measured before the update.
unfoldable pub measure : ℕ → ℕ → ℕ → SyncState → SyncState
measure now time_to_next counter sync =
    let counted : SyncState = record sync { meas_total = u64 (sync.meas_total + 1) } in
    let updated : SyncState = awdl_sync_update_last now time_to_next counter counted in
    if is_sync_error (awdl_sync_error_tu now time_to_next counter counted)
    then record updated { meas_err = u64 (updated.meas_err + 1) }
    else updated

unfoldable pub awdl_handle_sync_params_tlv : Peer → Buf → AwdlState → ℕ → ℤ × AwdlState
awdl_handle_sync_params_tlv src val state now = finish (handler state)
  where
    handler : Statement AwdlState Bool
    handler = do
      return_if (not (awdl_election_is_sync_master state.election src.addr)) rx_ignore
      time_to_next_aw_master ← try (read_le16 val (pos 1))
      aw_counter_master ← try (read_le16 val (pos 29))
      assign (λ s. record s { sync = measure now time_to_next_aw_master aw_counter_master s.sync })

-- `chan.val`, after its first bytes are overwritten.
abbrev pub overwrite : Chan → List ℕ → Chan
overwrite chan vs = record { val0 = get_or vs 0 chan.val0; val1 = get_or vs 1 chan.val1 }

abbrev done {ℓ} : {A : Type ℓ} → A → Statement Peer A
done a peer = (next a, peer)

-- The loop over `list`, an array that begins as what the stack holds.
unfoldable pub read_chans : Buf → ℕ → ℕ → List Chan → Statement Peer (List Chan)
read_chans val offset size [] = done []
read_chans val offset size (chan ∷ list) = do
  vs ← try (read_bytes_copy val (pos offset) size)
  chans ← read_chans val (offset + size) size list
  done (overwrite chan vs ∷ chans)

-- `stack` is what the uninitialised array `list` holds. The comparison before the copy is only
-- there for the log: a copy of an equal sequence changes nothing.
unfoldable pub awdl_handle_chanseq_tlv : List Chan → Peer → Buf → AwdlState → ℤ × Peer
awdl_handle_chanseq_tlv stack src val state = finish (handler src)
  where
    handler : Statement Peer Bool
    handler = do
      count ← try (read_u8 val (pos 0))
      return_if (not (count + 1 == chanseq_length)) rx_unexpected_value
      duplicate_count ← try (read_u8 val (pos 2))
      return_if (ltb 0 duplicate_count) rx_unexpected_value
      step_count ← try (read_u8 val (pos 3))
      return_if (not (step_count + 1 == state.sync.presence_mode)) rx_unexpected_value
      fill_channel ← try (read_le16 val (pos 4))
      return_if (not (fill_channel == 0xffff)) rx_unexpected_value
      encoding ← try (read_u8 val (pos 1))
      let size = awdl_chan_encoding_size encoding
      return_if (ltb_ℤ size (pos 1)) rx_unexpected_value
      list ← read_chans val 6 (pos_part size) stack
      assign (λ p. record p { sequence = list })

abbrev pub elect_with : (ElectionState → ElectionState) → Peer → Peer
elect_with f peer = record peer { election = f peer.election }

unfoldable pub awdl_handle_election_params_tlv : Peer → Buf → ℤ × Peer
awdl_handle_election_params_tlv src val = finish (handler src)
  where
    handler : Statement Peer Bool
    handler = do
      return_if src.supports_v2 rx_ok
      distance_to_master ← try (read_u8 val (pos 3))
      assign (elect_with λ e. record e { height = distance_to_master })
      addr ← try (read_ether_addr val (pos 5))
      assign (elect_with λ e. record e { master_addr = addr })
      metric ← try (read_le32 val (pos 11))
      assign (elect_with λ e. record e { master_metric = metric })
      own ← try (read_le32 val (pos 15))
      assign (elect_with λ e. record e { self_metric = own })

unfoldable pub awdl_handle_election_params_v2_tlv : Peer → Buf → ℤ × Peer
awdl_handle_election_params_v2_tlv src val = finish (handler src)
  where
    handler : Statement Peer Bool
    handler = do
      height ← try (read_le32 val (pos 16))
      assign (elect_with λ e. record e { height = height })
      master ← try (read_ether_addr val (pos 0))
      assign (elect_with λ e. record e { master_addr = master })
      sync ← try (read_ether_addr val (pos 6))
      assign (elect_with λ e. record e { sync_addr = sync })
      counter ← try (read_le32 val (pos 12))
      assign (elect_with λ e. record e { master_counter = counter })
      metric ← try (read_le32 val (pos 20))
      assign (elect_with λ e. record e { master_metric = metric })
      own_metric ← try (read_le32 val (pos 24))
      assign (elect_with λ e. record e { self_metric = own_metric })
      own_counter ← try (read_le32 val (pos 36))
      assign (elect_with λ e. record e { self_counter = own_counter })
      assign (λ p. record p { supports_v2 = true })

unfoldable pub awdl_handle_arpa_tlv : Peer → Buf → ℤ × Peer
awdl_handle_arpa_tlv src val = finish (handler src)
  where
    handler : Statement Peer Bool
    handler = do
      (name, _) ← try (read_int_string val (pos 1) host_name_length_max)
      assign (λ p. record p { name = name })

unfoldable pub awdl_handle_version_tlv : Peer → Buf → ℤ × Peer
awdl_handle_version_tlv src val = finish (handler src)
  where
    handler : Statement Peer Bool
    handler = do
      version ← try (read_u8 val (pos 0))
      devclass ← try (read_u8 val (pos 1))
      assign (λ p. record p { version = version; devclass = devclass })

-- `if (flags & flag) { …; offset += … }`, which gives the offset behind it.
abbrev pub when_flag : ℕ → ℕ → ℕ → Statement Peer ℕ → Statement Peer ℕ
when_flag flags flag offset field peer =
    if bit_and flags flag == 0 then (next offset, peer) else field peer

unfoldable pub awdl_handle_data_path_state_tlv : Peer → Buf → ℤ × Peer
awdl_handle_data_path_state_tlv src val = finish (handler src)
  where
    country : ℕ → Statement Peer ℕ
    country offset = do
      code ← try (read_bytes_copy val (pos offset) 3)
      assign (λ p. record p { country_code = code })
      done (offset + 3)

    social : ℕ → Statement Peer ℕ
    social offset = do try (read_le16 val (pos offset)); done (offset + 2)

    infra : ℕ → Statement Peer ℕ
    infra offset = do
      try (read_ether_addr val (pos offset))
      try (read_le16 val (pos (offset + 6)))
      done (offset + 6 + 2)

    infra_address : ℕ → Statement Peer ℕ
    infra_address offset = do
      addr ← try (read_ether_addr val (pos offset))
      assign (λ p. record p { infra_addr = addr })
      done (offset + 6)

    awdl_address : ℕ → Statement Peer ℕ
    awdl_address offset = do try (read_ether_addr val (pos offset)); done (offset + 6)

    handler : Statement Peer ℕ
    handler = do
      flags ← try (read_le16 val (pos 0))
      a ← when_flag flags flag_country_code 2 (country 2)
      b ← when_flag flags flag_social_channel_map a (social a)
      c ← when_flag flags flag_infra_info b (infra b)
      d ← when_flag flags flag_infra_address c (infra_address c)
      when_flag flags flag_awdl_address d (awdl_address d)

-- A handler that leaves the node's state as it is.
abbrev pub on_peer : AwdlState → ℤ × Peer → ℤ × Peer × AwdlState
on_peer state (code, peer) = (code, peer, state)

abbrev pub on_state : Peer → ℤ × AwdlState → ℤ × Peer × AwdlState
on_state peer (code, state) = (code, peer, state)

unfoldable pub awdl_handle_tlv : List Chan → Peer → ℕ → Buf → AwdlState → ℕ → ℤ × Peer × AwdlState
awdl_handle_tlv stack src type val state tsft =
    if type == synchronization_parameters_tlv
    then on_state src (awdl_handle_sync_params_tlv src val state tsft)
    else if type == chan_seq_tlv
    then on_peer state (awdl_handle_chanseq_tlv stack src val state)
    else if type == election_parameters_tlv
    then on_peer state (awdl_handle_election_params_tlv src val)
    else if type == election_parameters_v2_tlv
    then on_peer state (awdl_handle_election_params_v2_tlv src val)
    else if type == arpa_tlv
    then on_peer state (awdl_handle_arpa_tlv src val)
    else if type == data_path_state_tlv
    then on_peer state (awdl_handle_data_path_state_tlv src val)
    else if type == version_tlv
    then on_peer state (awdl_handle_version_tlv src val)
    else (rx_ignore, src, state)
