-- ===== src/Core/Deliver.antt =====
-- main/wifi/awdl.c and core.c: the way of a packet from the host to the radio.
use esp_owl.Base.{
  if◌then◌else◌, le_bytes, ◌*◌, Bool, List, Ordering, Ordering-cases, [], ap, arith, drop, false,
  inl, inr, length, none, refl, set_all, some, true, ℕ, ◌++◌, ◌+◌, ◌∙◌, ◌∷◌, ◌≡◌, ◌≢◌, ◌≤◌,
}
use esp_owl.Base.Overwrite.{set_all_pair}
use esp_owl.Base.Int.{pos}
use esp_owl.Ethernet.{EtherAddr, IsAddr, compare_ether_addr, ether_addr_of, octets}
use esp_owl.Wire.{Buf, read_ether_addr, write_ether_addr}
use esp_owl.Wire.View.{IsValid, length-view, reads-view, slice?, strip-take-view, view}
use esp_owl.Wire.RoundTrip.{write-view}
use esp_owl.Core.Daemon.{
  Daemon, Radio, awdl_send_data, awdl_send_unicast, awdl_transmit, count_stats, dst_address,
  send_next, transmit_buf, transmit_dst, try_unicast, unicast_step,
}
use esp_owl.Crc32.{crc32}
use esp_owl.Tx.Frames.{
  awdl_init_data, awdl_init_full_data_frame, ieee80211_add_fcs, ieee80211_init_awdl_data_hdr,
  ieee80211_init_awdl_hdr, llc_init_awdl_hdr,
}
use esp_owl.State.{awdl_state_next_sequence_number, ieee80211_state_next_sequence_number}
use esp_owl.Schedule.{awdl_can_send_unicast_in, unicast_guard_tu}
use esp_owl.CircularBuffer.{CircularBuf, circular_buf_full}
use esp_owl.Core.{ether_addr_to_in6_addr, in6_addr_to_ether_addr}
use esp_owl.Wire.Tlvs.{slice?_append}
use esp_owl.Sync.{u64}
use esp_owl.Peers.{Peer}
use esp_owl.Peers.Table.{PeerMap}
use esp_owl.Core.Addresses.{in6_addr_to_ether_addr-ether_addr_to_in6_addr}
use mathlib.Core.Option

-- The buffer that the driver makes of a packet.
module _ (alloc : ℕ → List ℕ) (dst : EtherAddr) (packet : List ℕ)
    (fits : length (alloc (6 + length packet)) ≡ 6 + length packet) (long : 6 ≤ length packet) where
  transmit_view :
      IsValid (transmit_buf alloc dst packet)
      × (view (transmit_buf alloc dst packet) ≡ octets dst ++ packet)
  unfolding transmit_buf
  transmit_view =
      let n = 6 + length packet in
      let fresh : Buf = record { bytes = alloc n; off = 0; len = n; owned = true } in
      let fresh_valid : IsValid fresh = record { fits = omega (arith, fits) } in
      let head = (write-view fresh 0 0 dst [] fresh_valid (omega arith) (omega arith)).5 in
      let b1 = (write_ether_addr fresh (pos 0) dst).1 in
      let long1 : 6 + length packet ≤ b1.len = omega (arith, head.3) in
      let body = (write-view b1 6 0 dst packet head.2 (omega (arith, long, long1)) long1).6 in
      let sizes : length (view fresh) ≡ 6 + length packet = length-view fresh fresh_valid in
      (
        body.2,
        body.1
            ∙ ap (λ (xs : List ℕ). set_all xs 6 packet) head.1
            ∙ set_all_pair (view fresh) (octets dst) packet sizes,
      )

-- The bytes of the data frame for a packet: the header of a data frame with the addresses of the
-- receiver, of the sender and of AWDL and the number of the frame, the LLC header of Apple, the head
-- of AWDL's data with its own number and the type of IPv6, and then the packet itself.
abbrev data_bytes : Radio → EtherAddr → List ℕ → List ℕ
data_bytes r dst packet =
    0x08 ∷ 0x00 ∷ 0x00 ∷ 0x00 ∷ []
    ++ (octets dst
        ++ (octets r.node.self_address
            ++ (0x00 ∷ 0x25 ∷ 0x00 ∷ 0xff ∷ 0x94 ∷ 0x73 ∷ []
                ++ (le_bytes 2 (r.ieee.sequence_number * 16)
                    ++ (0xaa ∷ 0xaa ∷ 0x03 ∷ 0x00 ∷ 0x17 ∷ 0xf2 ∷ 0x08 ∷ 0x00 ∷ []
                        ++ (0x03 ∷ 0x04 ∷ []
                            ++ (le_bytes 2 r.node.sequence_number
                                ++ (0x00 ∷ 0x00 ∷ 0x86 ∷ 0xdd ∷ packet))))))))

-- The frame on the air: with the checksum behind it when the radio wants one.
abbrev pub data_frame : Radio → EtherAddr → List ℕ → List ℕ
data_frame r dst packet =
    let frame = data_bytes r dst packet in
    if r.ieee.fcs then frame ++ le_bytes 4 (crc32 frame) else frame

full_frame :
    (r : Radio) (dst : EtherAddr) (packet : List ℕ)
    → (awdl_init_full_data_frame r.node.self_address dst packet r.node r.ieee).0
      ≡ data_frame r dst packet
unfolding awdl_init_full_data_frame awdl_init_data ieee80211_init_awdl_data_hdr llc_init_awdl_hdr
    ieee80211_init_awdl_hdr ieee80211_add_fcs awdl_state_next_sequence_number
    ieee80211_state_next_sequence_number
full_frame r dst packet = refl

running_kept :
    (r : Radio) (dst : EtherAddr) (packet : List ℕ)
    → (awdl_init_full_data_frame r.node.self_address dst packet r.node r.ieee).1.running
      ≡ r.node.running
unfolding awdl_init_full_data_frame awdl_init_data awdl_state_next_sequence_number
running_kept r dst packet = refl

read_head :
    (buf : Buf) (dst : EtherAddr) (packet : List ℕ)
    → IsValid buf
    → view buf ≡ octets dst ++ packet
    → read_ether_addr buf (pos 0) ≡ some dst
read_head buf dst packet v e =
    (reads-view buf 0 0 v).5
    ∙ ap (λ (xs : List ℕ). Option.map ether_addr_of (slice? xs 0 6)) e
    ∙ ap (Option.map ether_addr_of) (slice?_append [] (octets dst) packet)

-- What sending a buffer does that holds an address and a packet.
send_data_lem :
    (buf : Buf) (dst : EtherAddr) (packet : List ℕ) (r : Radio)
    → IsValid buf
    → view buf ≡ octets dst ++ packet
    → r.node.running ≡ true
    → (awdl_send_data buf r).1.sent ≡ r.sent ++ (data_frame r dst packet ∷ [])
unfolding awdl_send_data
send_data_lem buf dst packet r v e running =
    let size : buf.len ≡ 6 + length packet = omega (arith, length-view buf v, ap length e) in
    let rest = (strip-take-view buf 6 v (omega (arith, size))).0 ∙ ap (drop 6) e in
    rw (awdl_send_data, read_head buf dst packet v e, rest, running_kept r dst packet ∙ running)
      (ap (λ (frame : List ℕ). r.sent ++ (frame ∷ [])) (full_frame r dst packet))

-- With a peer that can be reached now, the packet is sent; the comparison is decided by hand.
unicast_sent :
    (M : PeerMap) (now : ℕ) (buf : Buf) (dst : EtherAddr) (peer : Peer) (d : Daemon M)
    → compare_ether_addr dst d.radio.node.self_address ≢ Ordering.eq
    → M.get d.peers dst ≡ some peer
    → awdl_can_send_unicast_in d.radio.node peer now unicast_guard_tu ≡ pos 0
    → unicast_step M now buf dst d ≡ (
      record d {
        radio =
            count_stats
              (λ s. record s { tx_data_unicast = u64 (s.tx_data_unicast + 1) })
              (awdl_send_data buf d.radio).1;
        next = none;
      },
      pos 0,
    )
unfolding unicast_step try_unicast
unicast_sent M now buf dst peer d other known reach =
    elim (Ordering-cases (compare_ether_addr dst d.radio.node.self_address)) [
      | inl lt ↦ rw (unicast_step, lt, known, reach) refl
      | inr (inl eq) ↦ absurd (other eq)
      | inr (inr gt) ↦ rw (unicast_step, gt, known, reach) refl
    ]

unicast_done :
    (M : PeerMap) (stack : EtherAddr) (now : ℕ) (buf : Buf) (dst : EtherAddr) (radio sent : Radio)
    (peers : M.Table) (queue : CircularBuf Buf)
    → read_ether_addr buf (pos 0) ≡ some dst
    → unicast_step M now buf dst
        (record { radio = radio; peers = peers; next = some buf; tx_queue = queue })
      ≡ (record { radio = sent; peers = peers; next = none; tx_queue = queue }, pos 0)
    → awdl_send_unicast M stack now
        (record { radio = radio; peers = peers; next = some buf; tx_queue = queue })
      ≡ (record { radio = sent; peers = peers; next = none; tx_queue = queue }, none)
unfolding awdl_send_unicast send_next
unicast_done M stack now buf dst radio sent peers queue head step = rw (send_next, head, step) refl

-- A packet for a peer, from a node that runs, with no packet waiting and room in the queue: when
-- the driver has taken it and the peer can be reached now, the radio gets one more frame, the data
-- frame from the node to the peer with the bytes of the packet behind its three headers. Nothing waits then and no timer is
-- set. The destination is the address that the IPv6 address of the packet was made of, which is
-- not the node's and of which lwIP does not say that it is multicast, and the variable that is not
-- initialised then happens to be false.
pub transmit-send_unicast :
    (M : PeerMap) (is_multicast_addr : List ℕ → Bool) (alloc : ℕ → List ℕ) (stack : EtherAddr)
    (dst : EtherAddr) (peer : Peer) (packet : List ℕ) (now : ℕ) (radio : Radio) (peers : M.Table)
    (queue : CircularBuf Buf)
    → IsAddr dst
    → dst_address packet ≡ ether_addr_to_in6_addr dst
    → is_multicast_addr (dst_address packet) ≡ false
    → 40 ≤ length packet
    → length (alloc (6 + length packet)) ≡ 6 + length packet
    → radio.node.running ≡ true
    → circular_buf_full queue ≡ false
    → compare_ether_addr dst radio.node.self_address ≢ Ordering.eq
    → M.get peers dst ≡ some peer
    → awdl_can_send_unicast_in radio.node peer now unicast_guard_tu ≡ pos 0
    → let before : Daemon M = record {
      radio = radio;
      peers = peers;
      next = none;
      tx_queue = queue;
    } in
      let (accepted, waiting) = awdl_transmit M is_multicast_addr false alloc packet before in
      let (after, timer) = awdl_send_unicast M stack now waiting in
      (accepted ≡ true)
      × (timer ≡ none)
      × (after.next ≡ none)
      × (after.radio.sent ≡ radio.sent ++ (data_frame radio dst packet ∷ []))
unfolding awdl_transmit transmit_dst
transmit-send_unicast M is_multicast_addr alloc stack dst peer packet now radio peers queue bytes
      made unicast long fits running room other known reach =
    let target : in6_addr_to_ether_addr (dst_address packet) ≡ dst =
      ap in6_addr_to_ether_addr made
      ∙ (in6_addr_to_ether_addr-ether_addr_to_in6_addr dst bytes).0 in
    let buf = transmit_buf alloc dst packet in
    let (valid, seen) = transmit_view alloc dst packet fits (omega (arith, long)) in
    let waiting : Daemon M = record {
      radio = radio;
      peers = peers;
      next = some buf;
      tx_queue = queue;
    } in
    let sent =
      count_stats (λ s. record s { tx_data_unicast = u64 (s.tx_data_unicast + 1) })
        (awdl_send_data buf radio).1 in
    let done =
      unicast_done M stack now buf dst radio sent peers queue (read_head buf dst packet valid seen)
        (unicast_sent M now buf dst peer waiting other known reach) in
    rw (room, unicast, target, done)
      (refl, refl, refl, send_data_lem buf dst packet radio valid seen running)
