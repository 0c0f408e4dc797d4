-- ===== src/Rx/Announce/Frame.antt =====
-- main/owl/tx.c and rx.c: a whole action frame, from the sender to the table of the receiver.
use esp_owl.Base.{
  Bool, List, [], ap, arith, drop, drop_append, false, length, length-append, refl, some, subst,
  Bool-cases, inl, inr, not, true, ℕ, ◌&&◌, ◌++◌, ◌+◌, ◌∙◌, ◌≡◌, ◌≢◌, ◌≤◌, ◌<◌,
}
use esp_owl.Base.Int.{pos, ℤ}
use esp_owl.Ethernet.{EtherAddr}
use esp_owl.Wire.{Buf, buf_len, buf_strip, read_bytes}
use esp_owl.Wire.View.{IsValid, length-view, reads-view, slice?, strip-take-view, view}
use esp_owl.Wire.Tlvs.{slice?_append}
use esp_owl.Sync.Windows
use esp_owl.Rx.{next, rx_ok}
use esp_owl.Rx.Tlvs.{measure}
use esp_owl.Rx.Loop.{Ends}
use esp_owl.Rx.Announce.Mif.{CanAnnounce, learned}
use esp_owl.Rx.Announce.Received.{mif_received}
use esp_owl.Channel.{Chan, chanseq_length}
use esp_owl.Sync.{awdl_sync_current_aw, awdl_sync_next_aw_tu, u16, u64}
use esp_owl.Election.{awdl_election_is_sync_master}
use esp_owl.State.{AwdlState}
use esp_owl.Peers.{Peer, awdl_peer_is_valid}
use esp_owl.Peers.Table.{PeerMap, peers_ok, turn_valid}
use esp_owl.Peers.Table.Update.{get_known, IsMarked, add_known, heard, turn_valid-IsMarked}
use esp_owl.Frame.{action_hdr_len, action_mif}
use esp_owl.Rx.Header.{action_subtype, awdl_parse_action_hdr}
use esp_owl.Rx.Action.{RxState, awdl_rx_action, is_too_weak, after_tlvs, strip_zero, take_tlvs}
use esp_owl.Tx.Tlvs.{awdl_init_sync_params_tlv}
use esp_owl.Tx.Frames.{action_tlvs, awdl_init_action, concat}

mif_subtype :
    (frame : Buf) (started : ℕ) (rest : List ℕ)
    → IsValid frame
    → view frame ≡ awdl_init_action started action_mif ++ rest
    → awdl_parse_action_hdr frame ≡ some action_mif
unfolding awdl_parse_action_hdr awdl_init_action action_subtype
mif_subtype frame started rest v e =
    let hdr = awdl_init_action started action_mif in
    let whole : read_bytes frame (pos 0) action_hdr_len ≡ some hdr =
      (reads-view frame 0 action_hdr_len v).6
      ∙ (ap (λ (xs : List ℕ). slice? xs 0 action_hdr_len) e ∙ slice?_append [] hdr rest) in
    rw whole refl

four_left : (frame : Buf) → frame.len ≡ 4 → strip_zero frame ≡ frame
unfolding strip_zero
four_left frame e = rw (strip_zero, e) refl

tlvs_long : (sent : ℕ) (me : AwdlState) → 9 < length (concat (action_tlvs sent me action_mif))
unfolding action_tlvs awdl_init_sync_params_tlv
tlvs_long sent me = omega arith

-- The clock of a node that has heard the MIF of its master.
abbrev pub clock_set : ℕ → ℕ → AwdlState → AwdlState → AwdlState
clock_set now sent me node = record node {
  sync =
      measure now (u16 (awdl_sync_next_aw_tu sent me.sync))
        (u16 (awdl_sync_current_aw sent me.sync)) node.sync;
}

abbrev pub count_action : AwdlState → AwdlState
count_action node = record node {
  stats = record node.stats { rx_action = u64 (node.stats.rx_action + 1) };
}

-- What the TLVs of a MIF leave of a frame, and the peer that they tell of.
abbrev left : ℕ → AwdlState → Buf → Buf
left sent me frame = (buf_strip frame (pos (length (concat (action_tlvs sent me action_mif))))).1

abbrev done : AwdlState → Peer → Peer
done me p = record (learned p me) { sent_mif = true }

module _ (M : PeerMap) (stack : List Chan) (sent now : ℕ) (src : EtherAddr) (me : AwdlState)
    (p : Peer) (fcs : List ℕ) (s : RxState M.Table) (can : CanAnnounce me)
    (room : length stack ≡ chanseq_length) (clock : Windows.IsValid s.node.sync)
    (master : awdl_election_is_sync_master s.node.election p.addr ≡ true) (valid : IsValid s.frame)
    (e : view s.frame ≡ concat (action_tlvs sent me action_mif) ++ fcs) (four : length fcs ≡ 4)
    (ends : Ends fcs) where
  -- The TLVs are taken, and the checksum is left.
  tlvs_taken : take_tlvs M stack now src action_mif p s ≡ (
    next true,
    record s {
      frame = left sent me s.frame;
      node = clock_set now sent me s.node;
      peers = M.set s.peers src (done me p);
    },
  )
  unfolding take_tlvs after_tlvs
  tlvs_taken =
      let bytes = concat (action_tlvs sent me action_mif) in
      let total : s.frame.len ≡ length bytes + 4 =
        omega (arith, length-view s.frame valid, ap length e, length-append bytes fcs, four) in
      let (seen, _, left_valid, _, _, _, _) =
        strip-take-view s.frame (length bytes) valid (omega (arith, total)) in
      let rest_buf = left sent me s.frame in
      let tail : view rest_buf ≡ fcs = seen ∙ ap (drop (length bytes)) e ∙ drop_append bytes fcs in
      let rest : rest_buf.len ≡ 4 =
        omega (arith, length-view rest_buf left_valid, ap length tail, four) in
      ap (after_tlvs M src action_mif s) (
        mif_received (buf_len s.frame) stack p me s.node sent now s.frame fcs can room clock master
          valid e ends (omega (arith, total, tlvs_long sent me)))
      ∙ rw (four_left rest_buf rest, rest) refl

hdr_cut :
    (started : ℕ) (rest : List ℕ)
    → (length (awdl_init_action started action_mif) ≡ action_hdr_len)
      × (drop action_hdr_len (awdl_init_action started action_mif ++ rest) ≡ rest)
unfolding awdl_init_action
hdr_cut started rest = (refl, refl)

turn_valid_addr : (p : Peer) → (turn_valid p).0.addr ≡ p.addr
unfolding turn_valid
turn_valid_addr p = ground arith

module _ (M : PeerMap) (garbage : Peer) (stack : List Chan) (rssi : ℤ) (started sent now : ℕ)
    (src : EtherAddr) (me : AwdlState) (p : Peer) (fcs : List ℕ) (s : RxState M.Table)
    (can : CanAnnounce me) (room : length stack ≡ chanseq_length)
    (clock : Windows.IsValid s.node.sync)
    (master : awdl_election_is_sync_master s.node.election p.addr ≡ true)
    (table : M.IsValid s.peers) (known : M.get s.peers src ≡ some p)
    (strong : (s.node.filter_rssi && is_too_weak s.node rssi peers_ok) ≡ false)
    (valid : IsValid s.frame)
    (e : view s.frame
      ≡ awdl_init_action started action_mif ++ (concat (action_tlvs sent me action_mif) ++ fcs))
    (four : length fcs ≡ 4) (ends : Ends fcs) where
  abbrev announced : Peer
  announced = (turn_valid (heard p now)).0

  abbrev told : Peer
  told = done me announced

  abbrev final : Peer
  final = (turn_valid (heard told now)).0

  abbrev t1 : M.Table
  t1 = M.set s.peers src announced

  abbrev behind_hdr : Buf
  behind_hdr = (buf_strip s.frame (pos action_hdr_len)).1

  abbrev counted : RxState M.Table
  counted = record s { frame = behind_hdr; node = count_action s.node; peers = t1 }

  action_taken : awdl_rx_action M garbage stack rssi now src s ≡ (
    rx_ok,
    record counted {
      frame = left sent me behind_hdr;
      node = clock_set now sent me counted.node;
      peers = M.set (M.set t1 src told) src final;
    },
  )
  unfolding awdl_rx_action
  action_taken =
      let hdr = awdl_init_action started action_mif in
      let rest = concat (action_tlvs sent me action_mif) ++ fcs in
      let (sixteen, cut) = hdr_cut started rest in
      let room16 : action_hdr_len ≤ s.frame.len =
        omega (arith, length-view s.frame valid, ap length e, length-append hdr rest, sixteen) in
      let (seen, _, rest_valid, _, _, _, _) = strip-take-view s.frame action_hdr_len valid room16 in
      let tail : view behind_hdr ≡ rest = seen ∙ ap (drop action_hdr_len) e ∙ cut in
      let (valid1, has1, _) = M.get-set s.peers src p announced table known in
      let (valid2, has2, _) = M.get-set t1 src announced told valid1 has1 in
      let master1 : awdl_election_is_sync_master s.node.election announced.addr ≡ true =
        ap (awdl_election_is_sync_master s.node.election) (turn_valid_addr (heard p now))
        ∙ master in
      rw
        (
          awdl_rx_action,
          mif_subtype s.frame started rest valid e,
          get_known M s.peers src p known,
          strong,
          add_known M garbage s.peers src now p known,
          get_known M t1 src announced has1,
          tlvs_taken M stack sent now src me announced fcs counted can room clock master1 rest_valid
              tail four ends,
          add_known M garbage (M.set t1 src told) src now told has2,
        )
        refl

turn_valid_eta : (p : Peer) → (turn_valid p).0 ≡ record p { is_valid = (turn_valid p).0.is_valid }
unfolding turn_valid
turn_valid_eta p = elim (Bool-cases (not p.is_valid && awdl_peer_is_valid p)) [
  | inl e ↦ rw e refl
  | inr e ↦ rw e refl
]

-- What the receiver knows of the sender then, valid or not.
abbrev pub met : ℕ → AwdlState → Peer → Bool → Peer
met now me p v = record (learned p me) { sent_mif = true; last_update = now; is_valid = v }

abbrev pub MetBy : (M : PeerMap) → ℕ → EtherAddr → AwdlState → Peer → M.Table → M.Table → Type 0
MetBy M now src me p before after =
    M.IsValid after
    × ((v : Bool) × (M.get after src ≡ some (met now me p v)) × IsMarked (met now me p v))
    × ((b : EtherAddr) → src ≢ b → M.get after b ≡ M.get before b)

-- A MIF as a node sends it, in a valid buffer, with a checksum behind it that does not begin with a
-- TLV: when the node can announce itself, and the receiver has a valid clock, an entry for the node,
-- the node for its master, and no objection to the strength of the signal, the MIF is accepted. Then
-- the entry has what the node has announced, the time, and the mark of a peer that can be valid; the
-- entries of all others are kept. The receiver has measured its clock and counted the frame, and
-- hands on nothing.
pub action_received :
    (M : PeerMap) (garbage : Peer) (stack : List Chan) (rssi : ℤ) (started sent now : ℕ)
    (src : EtherAddr) (me : AwdlState) (p : Peer) (fcs : List ℕ) (s : RxState M.Table)
    → CanAnnounce me
    → length stack ≡ chanseq_length
    → Windows.IsValid s.node.sync
    → awdl_election_is_sync_master s.node.election p.addr ≡ true
    → M.IsValid s.peers
    → M.get s.peers src ≡ some p
    → (s.node.filter_rssi && is_too_weak s.node rssi peers_ok) ≡ false
    → IsValid s.frame
    → view s.frame
      ≡ awdl_init_action started action_mif ++ (concat (action_tlvs sent me action_mif) ++ fcs)
    → length fcs ≡ 4
    → Ends fcs
    → let (result, after) = awdl_rx_action M garbage stack rssi now src s in
      (result ≡ rx_ok)
      × MetBy M now src me p s.peers after.peers
      × (after.node ≡ clock_set now sent me (count_action s.node))
      × (after.out ≡ s.out)
action_received M garbage stack rssi started sent now src me p fcs s can room clock master table
      known strong valid e four ends =
    let announced = (turn_valid (heard p now)).0 in
    let told = done me announced in
    let final = (turn_valid (heard told now)).0 in
    let t1 = M.set s.peers src announced in
    let (valid1, has1, others1) = M.get-set s.peers src p announced table known in
    let (valid2, has2, others2) = M.get-set t1 src announced told valid1 has1 in
    let (valid3, has3, others3) = M.get-set (M.set t1 src told) src told final valid2 has2 in
    let same : final ≡ met now me p final.is_valid =
      turn_valid_eta (heard told now)
      ∙ ap (λ (q : Peer). record (heard (done me q) now) { is_valid = final.is_valid })
          (turn_valid_eta (heard p now)) in
    rw
      (action_taken M garbage stack rssi started sent now src me p fcs s can room clock master table
        known strong valid e four ends)
      (
        refl,
        (
          valid3,
          (
            final.is_valid,
            has3 ∙ ap (λ (q : Peer). some q) same,
            subst (λ (q : Peer). IsMarked q) same (turn_valid-IsMarked (heard told now)),
          ),
          λ b apart. others3 b apart ∙ others2 b apart ∙ others1 b apart,
        ),
        refl,
        refl,
      )
