-- ===== src/Rx/Announce/Mif.antt =====
-- main/owl/tx.c and rx.c: the whole list of TLVs of a MIF, from the sender to the receiver.
use esp_owl.Rx.{next, rx_ok}
use esp_owl.Base.{
  Bool-cases, List, [], arith, drop, inl, inr, length, refl, true, ℕ, ◌<◌, ◌∷◌, ◌≡◌, ◌≤◌,
}
use esp_owl.Channel.{Chan, chanseq_length, enc_opclass}
use esp_owl.Sync.{SyncState, awdl_sync_current_aw, awdl_sync_next_aw_tu, u16}
use esp_owl.Sync.Windows.{IsValid}
use esp_owl.Election.{ElectionState, awdl_election_is_sync_master}
use esp_owl.Peers.{Peer, host_name_length_max}
use esp_owl.State.{AwdlState}
use esp_owl.Frame.{
  arpa_tlv, chan_seq_tlv, data_path_state_tlv, election_parameters_tlv, election_parameters_v2_tlv,
  enhanced_data_rate_capabilities_tlv, service_parameters_tlv, synchronization_parameters_tlv,
  version_tlv,
}
use esp_owl.Rx.Tlvs.{awdl_handle_election_params_tlv, awdl_handle_tlv, measure}
use esp_owl.Rx.Announce.{
  Fits, data_path_state_announced, election_v1_announced, election_v1_ignored,
  election_v2_announced, tlv_buf, version_announced,
}
use esp_owl.Rx.Announce.Sequence.{arpa_announced, chanseq_announced}
use esp_owl.Rx.Announce.Clock.{measure-IsValid, sync_params_announced}
use esp_owl.Rx.Loop.{TlvList, fold_tlvs}
use esp_owl.Tx.Tlvs.{
  awdl_init_arpa_tlv, awdl_init_chanseq_tlv, awdl_init_data_path_state_tlv,
  awdl_init_election_params_tlv, awdl_init_election_params_v2_tlv, awdl_init_ht_capabilities_tlv,
  awdl_init_service_params_tlv, awdl_init_sync_params_tlv, awdl_init_version_tlv,
}

-- The TLVs of a MIF by type and value.
abbrev pub mif_tlvs : ℕ → AwdlState → TlvList
mif_tlvs sent me =
    (synchronization_parameters_tlv, drop 3 (awdl_init_sync_params_tlv sent me))
    ∷ (election_parameters_tlv, drop 3 (awdl_init_election_params_tlv me))
    ∷ (chan_seq_tlv, drop 3 (awdl_init_chanseq_tlv me))
    ∷ (election_parameters_v2_tlv, drop 3 (awdl_init_election_params_v2_tlv me))
    ∷ (service_parameters_tlv, drop 3 (awdl_init_service_params_tlv me))
    ∷ (enhanced_data_rate_capabilities_tlv, drop 3 (awdl_init_ht_capabilities_tlv me))
    ∷ (arpa_tlv, drop 3 (awdl_init_arpa_tlv me))
    ∷ (data_path_state_tlv, drop 3 (awdl_init_data_path_state_tlv me))
    ∷ (version_tlv, drop 3 (awdl_init_version_tlv me))
    ∷ []

-- What a node has to be for its MIF to say all of it.
pub record CanAnnounce (me : AwdlState) : Type 0 where
  pub election : Fits me.election
  pub enc : me.channel.enc ≡ enc_opclass
  pub sequence : length me.channel.sequence ≡ chanseq_length
  pub name : length me.name ≤ host_name_length_max
  pub version : me.version < 256
  pub dev_class : me.dev_class < 256

-- What a receiver knows of the sender then.
abbrev pub learned : Peer → AwdlState → Peer
learned src me = record src {
  election = record me.election { self_addr = src.election.self_addr };
  sequence = me.channel.sequence;
  supports_v2 = true;
  name = me.name;
  country_code = b'X' ∷ b'0' ∷ 0 ∷ [];
  version = me.version;
  devclass = me.dev_class;
}

-- The first version of the election parameters touches the election only.
election_v1_only :
    (src : Peer) (me : AwdlState)
    → Fits me.election
    → (e : ElectionState) × (awdl_handle_election_params_tlv src
          (tlv_buf (drop 3 (awdl_init_election_params_tlv me)))
        ≡ (rx_ok, record src { election = e }))
      × (e.self_addr ≡ src.election.self_addr)
election_v1_only src me f = elim (Bool-cases src.supports_v2) [
  | inl new ↦ (src.election, election_v1_ignored src _ new, refl)
  | inr old ↦ (_, election_v1_announced src me f old, refl)
]

-- The handlers over the TLVs of a MIF, at a receiver with a valid clock whose master the sender is,
-- when the sender can announce itself.
pub mif_learned :
    (stack : List Chan) (src : Peer) (me state : AwdlState) (sent now : ℕ)
    → CanAnnounce me
    → length stack ≡ chanseq_length
    → IsValid state.sync
    → awdl_election_is_sync_master state.election src.addr ≡ true
    → fold_tlvs stack now (mif_tlvs sent me) src state ≡ (
      next true,
      learned src me,
      record state {
        sync =
            measure now
              (u16 (awdl_sync_next_aw_tu sent me.sync))
              (u16 (awdl_sync_current_aw sent me.sync))
              state.sync;
      },
    )
unfolding awdl_handle_tlv
mif_learned stack src me state sent now c st v master =
    let (e1, v1, own) = election_v1_only src me c.election in
    let sync : SyncState =
      measure now (u16 (awdl_sync_next_aw_tu sent me.sync))
        (u16 (awdl_sync_current_aw sent me.sync)) state.sync in
    let after : AwdlState = record state { sync = sync } in
    let presence : sync.presence_mode ≡ 4 =
      (measure-IsValid now (u16 (awdl_sync_next_aw_tu sent me.sync))
        (u16 (awdl_sync_current_aw sent me.sync)) v (omega arith)).presence in
    let p1 : Peer = record src { election = e1 } in
    let p2 : Peer = record p1 { sequence = me.channel.sequence } in
    let p3 : Peer = record p2 {
      election = record me.election { self_addr = e1.self_addr };
      supports_v2 = true;
    } in
    let p4 : Peer = record p3 { name = me.name } in
    let p5 : Peer = record p4 { country_code = b'X' ∷ b'0' ∷ 0 ∷ [] } in
    rw (
      sync_params_announced src me state sent now master,
      v1,
      chanseq_announced stack p1 me after st c.sequence c.enc presence,
      election_v2_announced p2 me c.election,
      arpa_announced p3 me c.name,
      data_path_state_announced p4 me,
      version_announced p5 me c.version c.dev_class,
      own,
    )
