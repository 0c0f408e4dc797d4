-- ===== src/Core/Host.antt =====
-- main/owl/rx.c and main/wifi/capture.c: the way of a received payload to the host.
use esp_owl.Base.{
  get_elem?-set_all, take-drop-set_all, set, List, [], ap, arith, be_bytes, drop, false, get_elem?,
  get_or, inl, le→ltb_false, length, length-set_all, refl, set_all, some, suc, sym, take, take-take,
  true, zero, ℕ, ◌%◌, ◌++◌, ◌+◌, ◌∙◌, ◌∷◌, ◌≡◌, ◌≤◌, ◌<◌,
}
use esp_owl.Base.Int.{pos, ◌+ℤ◌}
use esp_owl.Ethernet.{EtherAddr, octets}
use esp_owl.Wire.{Buf, buf_data, write_be16, write_bytes, write_ether_addr, write_u8}
use esp_owl.Wire.View.{IsValid, get_or-get_elem?, length-view, view}
use esp_owl.Rx.{next}
use esp_owl.Rx.Action.{RxState}
use esp_owl.Rx.Data.{LlcHdr, awdl_rx_data, ether_frame}
use esp_owl.Rx.Payload.{cuts, data_received, payload_of}
use esp_owl.State.{AwdlState}
use esp_owl.Peers.Table.{PeerMap, awdl_peer_get, is_failure}
use esp_owl.Tx.Frames.{awdl_init_data, eth_p_ipv6, llc_init_awdl_hdr}
use esp_owl.Core.Capture.{packet_data, to_host}
use mathlib.Core.Option.{some-injective}

-- The array of an Ethernet frame up to the length of its payload.
abbrev head : List ℕ → EtherAddr → EtherAddr → ℕ → List ℕ
head fresh dst src ether_type =
    set_all (set_all (set_all fresh 0 (octets dst)) 6 (octets src)) 12 (be_bytes 2 ether_type)

abbrev with_len : List ℕ → EtherAddr → EtherAddr → ℕ → ℕ → List ℕ
with_len fresh dst src ether_type n = set_all (head fresh dst src ether_type) 14 (n % 256 ∷ [])

write_fits :
    (b : Buf) (o n : ℕ) (vs : List ℕ)
    → o + n ≤ b.len
    → (write_bytes b (pos o) vs n).1 ≡ record b { bytes = set_all b.bytes (b.off + o) (take n vs) }
unfolding write_bytes
write_fits b o n vs h = rw (le→ltb_false b.len (o + n) h) refl

frame_bytes :
    (fresh : List ℕ) (dst src : EtherAddr) (ether_type : ℕ) (b : Buf)
    → 15 + b.len ≤ 1518
    → buf_data (ether_frame fresh dst src ether_type b)
      ≡ set_all (with_len fresh dst src ether_type b.len) 15 (view b)
unfolding ether_frame write_ether_addr write_be16 write_u8 write_bytes ◌+ℤ◌
frame_bytes fresh dst src ether_type b h =
    let before : Buf = record {
      bytes = with_len fresh dst src ether_type b.len;
      off = 0;
      len = 1518;
      owned = true;
    } in
    ap buf_data (write_fits before 15 b.len (buf_data b) h)

length-with_len :
    (fresh : List ℕ) (dst src : EtherAddr) (ether_type n : ℕ)
    → length (with_len fresh dst src ether_type n) ≡ length fresh
length-with_len fresh dst src ether_type n =
    length-set_all (head fresh dst src ether_type) 14 (n % 256 ∷ [])
    ∙ length-set_all (set_all (set_all fresh 0 (octets dst)) 6 (octets src)) 12
        (be_bytes 2 ether_type)
    ∙ length-set_all (set_all fresh 0 (octets dst)) 6 (octets src)
    ∙ length-set_all fresh 0 (octets dst)

get_elem?_set_at : (xs : List ℕ) (i v : ℕ) → i < length xs → get_elem? (set xs i v) i ≡ some v
get_elem?_set_at [] i v h = absurd (omega arith)
get_elem?_set_at (x ∷ xs) zero v h = refl
get_elem?_set_at (x ∷ xs) (suc i) v h = get_elem?_set_at xs i v (omega (arith, h))

-- The byte in front of the payload is the length of the payload, cut to a byte.
length_byte :
    (xs vs : List ℕ) (v : ℕ)
    → 14 < length xs
    → get_or (set_all (set_all xs 14 (v ∷ [])) 15 vs) 14 0 ≡ v
length_byte xs vs v h =
    let ys = set_all xs 14 (v ∷ []) in
    let zs = set_all ys 15 vs in
    let n : length zs ≡ length xs = length-set_all ys 15 vs ∙ length-set_all xs 14 (v ∷ []) in
    some-injective (get_or zs 14 0) v (
      get_or-get_elem? zs 14 (omega (arith, n, h))
      ∙ get_elem?-set_all ys 15 vs 14 (inl (omega arith))
      ∙ get_elem?_set_at xs 14 v h)

-- The host gets the bytes that the length byte counts.
pub packet_data-ether_frame :
    (fresh : List ℕ) (dst src : EtherAddr) (ether_type : ℕ) (b : Buf)
    → IsValid b
    → length fresh ≡ 1518
    → 15 + length (view b) ≤ 1518
    → packet_data (buf_data (ether_frame fresh dst src ether_type b))
      ≡ take (length (view b) % 256) (view b)
packet_data-ether_frame fresh dst src ether_type b v size fits =
    let n = length-view b v in
    let xs = head fresh dst src ether_type in
    let ys = with_len fresh dst src ether_type b.len in
    let vs = view b in
    let long : length ys ≡ 1518 = length-with_len fresh dst src ether_type b.len ∙ size in
    let long_head : length xs ≡ 1518 = sym (length-set_all xs 14 (b.len % 256 ∷ [])) ∙ long in
    let k = length vs % 256 in
    ap packet_data (frame_bytes fresh dst src ether_type b (omega (arith, n, fits)))
    ∙ ap (λ (m : ℕ). take m (drop 15 (set_all ys 15 vs)))
        (length_byte xs vs (b.len % 256) (omega (arith, long_head))
          ∙ ap (λ (m : ℕ). m % 256) (sym n))
    ∙ sym (take-take k (length vs) (drop 15 (set_all ys 15 vs)) (omega arith))
    ∙ ap (take k) (take-drop-set_all ys 15 vs (omega (arith, long, fits)))

-- A data frame as it is sent, with its checksum of four bytes behind it, in a valid buffer from a
-- peer that the table has, whose payload fits into an Ethernet frame: the receiver accepts it, and
-- the host, which has got nothing else, gets the first bytes of the payload, as many as its
-- length modulo 256.
pub data_to_host :
    (M : PeerMap) (fresh : List ℕ) (garbage : LlcHdr) (src dst : EtherAddr) (sender : AwdlState)
    (payload fcs : List ℕ) (s : RxState M.Table)
    → IsValid s.frame
    → length fcs ≡ 4
    → view s.frame ≡ llc_init_awdl_hdr ++ ((awdl_init_data sender).0 ++ (payload ++ fcs))
    → is_failure (awdl_peer_get M s.peers src).0 ≡ false
    → s.out ≡ []
    → length fresh ≡ 1518
    → 15 + length payload ≤ 1518
    → let (result, after) = awdl_rx_data M fresh garbage src dst s in
      (result ≡ next true) × (to_host true after.out ≡ take (length payload % 256) payload ∷ [])
unfolding to_host
data_to_host M fresh garbage src dst sender payload fcs s v four e known first size fits =
    let (accepted, out, same, _) =
      data_received M fresh garbage src dst sender payload fcs s v four e known in
    let given = payload_of s.frame in
    let c = cuts s.frame sender payload fcs v four e in
    let n : length (view given) ≡ length payload = ap length same in
    let seen : packet_data (buf_data (ether_frame fresh dst src eth_p_ipv6 given))
        ≡ take (length payload % 256) payload =
      packet_data-ether_frame fresh dst src eth_p_ipv6 given c.valid size (omega (arith, n, fits))
      ∙ ap (λ (xs : List ℕ). take (length xs % 256) xs) same in
    (
      accepted,
      ap (to_host true) (
            out
            ∙ ap (λ (xs : List Buf). xs ++ (ether_frame fresh dst src eth_p_ipv6 given ∷ [])) first)
          ∙ ap (λ (xs : List ℕ). xs ∷ []) seen,
    )
