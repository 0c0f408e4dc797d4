-- ===== src/Rx/Announce/Received.antt =====
-- main/owl/tx.c and rx.c: the bytes of the TLVs of a MIF, through the loop of the receiver.
use esp_owl.Sync.Windows
use esp_owl.Wire.View
use esp_owl.Base.Int.{pos}
use esp_owl.Rx.{Outcome, next}
use esp_owl.Base.{
  sym, All, Bool, List, [], ap, ap₂, arith, be_bytes, drop, le_bytes, length, length-append, refl,
  suc, true, ℕ, ◌*◌, ◌++◌, ◌+◌, ◌<◌, ◌^◌, ◌∙◌, ◌∷◌, ◌≡◌,
}
use esp_owl.Wire.{Buf, buf_strip}
use esp_owl.Wire.Tlvs.{tlv_bytes}
use esp_owl.Channel.{Chan, awdl_chan_encoding_length, chanseq_length, enc_opclass}
use esp_owl.Sync.{awdl_sync_current_aw, awdl_sync_next_aw_tu, u16}
use esp_owl.Election.{awdl_election_is_sync_master}
use esp_owl.Peers.{Peer}
use esp_owl.State.{AwdlState}
use esp_owl.Frame.{action_mif, arpa_tlv}
use esp_owl.Rx.Tlvs.{measure}
use esp_owl.Rx.Action.{handle_tlvs}
use esp_owl.Rx.Announce.Mif.{CanAnnounce, learned, mif_learned, mif_tlvs}
use esp_owl.Rx.Loop.{Ends, TlvList, encode, handle_tlvs-encode, leave}
use esp_owl.Tx.Tlvs.{
  awdl_dns_short_local, awdl_init_arpa_tlv, awdl_init_chanseq, awdl_init_chanseq_tlv,
  awdl_init_data_path_state_tlv, awdl_init_election_params_tlv, awdl_init_election_params_v2_tlv,
  awdl_init_ht_capabilities_tlv, awdl_init_service_params_tlv, awdl_init_sync_params_tlv,
  awdl_init_version_tlv, chan_bytes,
}
use esp_owl.Tx.Frames.{action_tlvs, concat}
use esp_owl.Wire.View.{view}

arpa_bytes :
    (me : AwdlState) → tlv_bytes arpa_tlv (drop 3 (awdl_init_arpa_tlv me)) ≡ awdl_init_arpa_tlv me
unfolding awdl_init_arpa_tlv
arpa_bytes me =
    let n = length me.name in
    let total : suc (suc (length (me.name ++ be_bytes 2 awdl_dns_short_local))) ≡ 3 + n + 1 =
      omega (arith, length-append me.name (be_bytes 2 awdl_dns_short_local)) in
    ap (λ (k : ℕ). arpa_tlv ∷ (le_bytes 2 k ++ drop 3 (awdl_init_arpa_tlv me))) total

-- Each TLV with its bytes.
abbrev Framed : TlvList → List (List ℕ) → Type 0
Framed [] [] = Unit
Framed ((type, val) ∷ tlvs) (x ∷ xs) = (tlv_bytes type val ≡ x) × Framed tlvs xs
Framed _ _ = ⊥

encode-Framed : (tlvs : TlvList) (xs : List (List ℕ)) → Framed tlvs xs → encode tlvs ≡ concat xs
encode-Framed [] [] f = refl
encode-Framed [] (x ∷ xs) f = elim f [ ]
encode-Framed ((type, val) ∷ tlvs) [] f = elim f [ ]
encode-Framed ((type, val) ∷ tlvs) (x ∷ xs) (e, f) =
    ap₂ (λ (a b : List ℕ). a ++ b) e (encode-Framed tlvs xs f)

module _ (sent : ℕ) (me : AwdlState) where
  sync_params_bytes :
      tlv_bytes 4 (drop 3 (awdl_init_sync_params_tlv sent me)) ≡ awdl_init_sync_params_tlv sent me
  unfolding awdl_init_sync_params_tlv
  sync_params_bytes = refl

  election_bytes :
      tlv_bytes 5 (drop 3 (awdl_init_election_params_tlv me)) ≡ awdl_init_election_params_tlv me
  unfolding awdl_init_election_params_tlv
  election_bytes = refl

  chanseq_bytes : tlv_bytes 18 (drop 3 (awdl_init_chanseq_tlv me)) ≡ awdl_init_chanseq_tlv me
  unfolding awdl_init_chanseq_tlv
  chanseq_bytes = refl

  election_v2_bytes :
      tlv_bytes 24 (drop 3 (awdl_init_election_params_v2_tlv me))
      ≡ awdl_init_election_params_v2_tlv me
  unfolding awdl_init_election_params_v2_tlv
  election_v2_bytes = refl

  service_bytes :
      tlv_bytes 6 (drop 3 (awdl_init_service_params_tlv me)) ≡ awdl_init_service_params_tlv me
  unfolding awdl_init_service_params_tlv
  service_bytes = refl

  ht_bytes :
      tlv_bytes 7 (drop 3 (awdl_init_ht_capabilities_tlv me)) ≡ awdl_init_ht_capabilities_tlv me
  unfolding awdl_init_ht_capabilities_tlv
  ht_bytes = refl

  data_path_bytes :
      tlv_bytes 12 (drop 3 (awdl_init_data_path_state_tlv me)) ≡ awdl_init_data_path_state_tlv me
  unfolding awdl_init_data_path_state_tlv
  data_path_bytes = refl

  version_bytes : tlv_bytes 21 (drop 3 (awdl_init_version_tlv me)) ≡ awdl_init_version_tlv me
  unfolding awdl_init_version_tlv
  version_bytes = refl

-- The bytes that a node sends for a MIF are its TLVs, each with its type and its length.
pub encode-mif_tlvs :
    (sent : ℕ) (me : AwdlState)
    → encode (mif_tlvs sent me) ≡ concat (action_tlvs sent me action_mif)
unfolding action_tlvs
encode-mif_tlvs sent me = encode-Framed (mif_tlvs sent me) (action_tlvs sent me action_mif) (
  sync_params_bytes sent me,
  (
    election_bytes sent me,
    (
      chanseq_bytes sent me,
      (
        election_v2_bytes sent me,
        (
          service_bytes sent me,
          (
            ht_bytes sent me,
            (arpa_bytes me, (data_path_bytes sent me, (version_bytes sent me, _))),
          ),
        ),
      ),
    ),
  ),
)

length-chan_bytes : (chans : List Chan) → length (chan_bytes 2 chans) ≡ 2 * length chans
length-chan_bytes [] = refl
length-chan_bytes (c ∷ cs) = omega (arith, length-chan_bytes cs)

length-init_chanseq :
    (me : AwdlState)
    → me.channel.enc ≡ enc_opclass
    → length me.channel.sequence ≡ chanseq_length
    → length (awdl_init_chanseq me) ≡ 38
unfolding awdl_init_chanseq
length-init_chanseq me enc h =
    let two : awdl_chan_encoding_length me.channel.enc ≡ 2 =
      rw enc (unfold awdl_chan_encoding_length in refl) in
    let bytes : length (chan_bytes (awdl_chan_encoding_length me.channel.enc) me.channel.sequence)
        ≡ 32 =
      ap (λ (k : ℕ). length (chan_bytes k me.channel.sequence)) two
      ∙ omega (arith, length-chan_bytes me.channel.sequence, h) in
    omega (arith, bytes)

-- No value is too long for its length field.
mif_tlvs_small :
    (sent : ℕ) (me : AwdlState)
    → CanAnnounce me
    → All (λ (t : ℕ × List ℕ). length t.1 < 2 ^ 16) (mif_tlvs sent me)
unfolding awdl_init_sync_params_tlv awdl_init_election_params_tlv awdl_init_chanseq_tlv
    awdl_init_election_params_v2_tlv awdl_init_service_params_tlv awdl_init_ht_capabilities_tlv
    awdl_init_arpa_tlv awdl_init_data_path_state_tlv awdl_init_version_tlv
mif_tlvs_small sent me c =
    let seq = length-init_chanseq me c.enc c.sequence in
    let in_sync = length-append (awdl_init_chanseq me) (0 ∷ 0 ∷ []) in
    let in_chanseq = length-append (awdl_init_chanseq me) (0 ∷ 0 ∷ 0 ∷ []) in
    let in_arpa = length-append me.name (be_bytes 2 awdl_dns_short_local) in
    (
      omega (arith, seq, in_sync),
      (
        omega arith,
        (
          omega (arith, seq, in_chanseq),
          (
            omega arith,
            (
              omega arith,
              (omega arith, (omega (arith, in_arpa, c.name), (omega arith, (omega arith, _)))),
            ),
          ),
        ),
      ),
    )

-- The bytes that a node sends for the TLVs of a MIF, at the start of a valid buffer, with bytes
-- behind them that do not begin with a TLV: when the node can announce itself, and the receiver has
-- a valid clock and the node for its master, ten or more rounds of the loop succeed, and leave the
-- bytes behind the TLVs. The receiver then knows the election, the channel sequence, the name, the
-- country code, the version and the device class of the node, and has measured its own clock
-- against the one that was sent.
pub mif_received :
    (rounds : ℕ) (stack : List Chan) (src : Peer) (me state : AwdlState) (sent now : ℕ)
    (frame : Buf) (rest : List ℕ)
    → CanAnnounce me
    → length stack ≡ chanseq_length
    → Windows.IsValid state.sync
    → awdl_election_is_sync_master state.election src.addr ≡ true
    → View.IsValid frame
    → view frame ≡ concat (action_tlvs sent me action_mif) ++ rest
    → Ends rest
    → 9 < rounds
    → handle_tlvs rounds stack now src frame state ≡ (
      next (buf_strip frame (pos (length (concat (action_tlvs sent me action_mif))))).1,
      learned src me,
      record state {
        sync =
            measure now
              (u16 (awdl_sync_next_aw_tu sent me.sync))
              (u16 (awdl_sync_current_aw sent me.sync))
              state.sync;
      },
    )
mif_received rounds stack src me state sent now frame rest c st v master valid e short enough =
    let bytes = encode-mif_tlvs sent me in
    handle_tlvs-encode rounds stack now (mif_tlvs sent me) rest src frame state valid
      (e ∙ ap (λ (xs : List ℕ). xs ++ rest) (sym bytes)) (mif_tlvs_small sent me c) short
      (omega (arith, enough))
    ∙ ap₂
        (λ (xs : List ℕ) (r : Outcome Bool × Peer × AwdlState).
          leave (buf_strip frame (pos (length xs))).1 r)
        bytes (mif_learned stack src me state sent now c st v master)
