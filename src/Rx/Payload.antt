-- ===== src/Rx/Payload.antt =====
-- main/owl/tx.c and rx.c: the payload of a data frame, from the sender to the Ethernet frame.
use esp_owl.Rx.{next}
use esp_owl.Base.{
  List, [], ap, ap₂, arith, be_bytes, be_value, drop, false, get_elem?, length, length-append,
  le→ltb_false, ltb, refl, some, take, take_append, true, ℕ, ◌++◌, ◌+◌, ◌-◌, ◌∙◌, ◌∷◌, ◌≡◌,
}
use esp_owl.Base.Int.{pos}
use esp_owl.Ethernet.{EtherAddr}
use esp_owl.Wire.{Buf, buf_strip, buf_take, read_be16, read_bytes_copy, read_u8}
use esp_owl.Wire.View.{IsValid, length-view, reads-view, slice?, strip-take-view, view}
use esp_owl.Wire.Tlvs.{slice?_append}
use esp_owl.Peers.Table.{PeerMap, awdl_peer_get, is_failure}
use esp_owl.State.{AwdlState}
use esp_owl.Frame.{awdl_oui}
use esp_owl.Rx.Action.{RxState}
use esp_owl.Rx.Data.{
  LlcHdr, awdl_data_len, awdl_rx_data, awdl_valid_llc_header, ether_frame, is_llc_header,
  llc_hdr_len, llc_parse,
}
use esp_owl.Tx.Frames.{awdl_init_data, eth_p_ipv6, llc_init_awdl_hdr}
use mathlib.Core.Option

llc_reads :
    (frame : Buf) (rest : List ℕ)
    → IsValid frame
    → view frame ≡ llc_init_awdl_hdr ++ rest
    → (read_u8 frame (pos 0) ≡ some 0xaa)
      × (read_u8 frame (pos 1) ≡ some 0xaa)
      × (read_u8 frame (pos 2) ≡ some 3)
      × (read_bytes_copy frame (pos 3) 3 ≡ some awdl_oui)
      × (read_be16 frame (pos 6) ≡ some 0x0800)
unfolding llc_init_awdl_hdr
llc_reads frame rest v e =
    let byte : (o : ℕ) → read_u8 frame (pos o) ≡ get_elem? (llc_init_awdl_hdr ++ rest) o =
      λ o. (reads-view frame o 0 v).0 ∙ ap (λ (xs : List ℕ). get_elem? xs o) e in
    (
      byte 0,
      byte 1,
      byte 2,
      (reads-view frame 3 3 v).7
          ∙ (ap (λ (xs : List ℕ). slice? xs 3 3) e
              ∙ slice?_append (0xaa ∷ 0xaa ∷ 3 ∷ []) awdl_oui (8 ∷ 0 ∷ rest)),
      (reads-view frame 6 0 v).2
          ∙ (ap (λ (xs : List ℕ). Option.map be_value (slice? xs 6 2)) e
              ∙ ap (Option.map be_value)
                  (slice?_append (0xaa ∷ 0xaa ∷ 3 ∷ 0x00 ∷ 0x17 ∷ 0xf2 ∷ []) (8 ∷ 0 ∷ []) rest)),
    )

llc_sent :
    (garbage : LlcHdr) (frame : Buf) (rest : List ℕ)
    → IsValid frame
    → view frame ≡ llc_init_awdl_hdr ++ rest
    → awdl_valid_llc_header garbage frame ≡ true
unfolding awdl_valid_llc_header llc_parse is_llc_header
llc_sent garbage frame rest v e =
    let (r0, r1, r2, r3, r6) = llc_reads frame rest v e in rw (r0, r1, r2, r3, r6) refl

-- The three cuts that awdl_rx_data makes.
abbrev pub payload_of : Buf → Buf
payload_of frame =
    let behind_llc = (buf_strip frame (pos llc_hdr_len)).1 in
    (buf_take (buf_strip behind_llc (pos awdl_data_len)).1 (pos 4)).1

pub record Cuts (frame : Buf) (data_bytes : List ℕ) : Type 0 where
  enough : ltb (buf_strip frame (pos 8)).1.len 8 ≡ false
  ether_type : read_be16 (buf_strip frame (pos 8)).1 (pos 6) ≡ some eth_p_ipv6
  payload : view (payload_of frame) ≡ data_bytes
  pub valid : IsValid (payload_of frame)

pub cuts :
    (frame : Buf) (state : AwdlState) (payload fcs : List ℕ)
    → IsValid frame
    → length fcs ≡ 4
    → view frame ≡ llc_init_awdl_hdr ++ ((awdl_init_data state).0 ++ (payload ++ fcs))
    → Cuts frame payload
unfolding llc_init_awdl_hdr awdl_init_data
cuts frame state payload fcs v four e =
    let total : length (payload ++ fcs) ≡ length payload + 4 =
      omega (arith, four, length-append payload fcs) in
    let long : frame.len ≡ 16 + length (payload ++ fcs) =
      omega (arith, length-view frame v, ap length e) in
    let (view1, _, valid1, _, _, _, _) = strip-take-view frame 8 v (omega (arith, long)) in
    let f1 : Buf = (buf_strip frame (pos 8)).1 in
    let seen1 = view1 ∙ ap (drop 8) e in
    let long1 : f1.len ≡ 8 + length (payload ++ fcs) =
      omega (arith, length-view f1 valid1, ap length seen1) in
    let (view2, _, valid2, _, _, _, _) = strip-take-view f1 8 valid1 (omega (arith, long1)) in
    let f2 : Buf = (buf_strip f1 (pos 8)).1 in
    let seen2 : view f2 ≡ payload ++ fcs = view2 ∙ ap (drop 8) seen1 in
    let long2 : f2.len ≡ length payload + 4 =
      omega (arith, length-view f2 valid2, ap length seen2, total) in
    let (_, view3, _, valid3, _, _, _) = strip-take-view f2 4 valid2 (omega (arith, long2)) in
    let rest : f2.len - 4 ≡ length payload = omega (arith, long2) in
    record {
      enough = le→ltb_false f1.len 8 (omega (arith, long1));
      ether_type =
          (reads-view f1 6 0 valid1).2
          ∙ (ap (λ (xs : List ℕ). Option.map be_value (slice? xs 6 2)) seen1
              ∙ ap (Option.map be_value) (
                  slice?_append (take 6 (awdl_init_data state).0) (be_bytes 2 eth_p_ipv6)
                    (payload ++ fcs)));
      payload = view3 ∙ (ap₂ take rest seen2 ∙ take_append payload fcs);
      valid = valid3;
    }

-- A data frame as it is sent, with its checksum of four bytes behind it, in a valid buffer from a peer
-- that the table has: the receiver accepts it, leaves its peers, and hands on one more Ethernet
-- frame, which it makes of the two addresses, the type of IPv6 and the bytes of the payload.
pub data_received :
    (M : PeerMap) (fresh : List ℕ) (garbage : LlcHdr) (src dst : EtherAddr) (sender : AwdlState)
    (payload fcs : List ℕ) (s : RxState M.Table)
    → IsValid s.frame
    → length fcs ≡ 4
    → view s.frame ≡ llc_init_awdl_hdr ++ ((awdl_init_data sender).0 ++ (payload ++ fcs))
    → is_failure (awdl_peer_get M s.peers src).0 ≡ false
    → let (result, after) = awdl_rx_data M fresh garbage src dst s in
      (result ≡ next true)
      × (after.out ≡ s.out ++ (ether_frame fresh dst src eth_p_ipv6 (payload_of s.frame) ∷ []))
      × (view (payload_of s.frame) ≡ payload)
      × (after.peers ≡ s.peers)
unfolding awdl_rx_data
data_received M fresh garbage src dst sender payload fcs s v four e known =
    let c = cuts s.frame sender payload fcs v four e in
    let llc = llc_sent garbage s.frame ((awdl_init_data sender).0 ++ (payload ++ fcs)) v e in
    rw (known, llc, c.enough, c.ether_type) (refl, refl, c.payload, refl)
