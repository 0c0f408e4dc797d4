-- ===== src/Core/Events/Reach.antt =====
-- main/wifi/capture.c, core.c and awdl.c: the states that the node can reach from its start.
use esp_owl.Base.{
  Bool, List, Option, Ordering, [], ap, arith, false, if◌then◌else◌, inl, inr, none, refl, some,
  suc, true, zero, ℕ, ◌<◌, ◌+◌, ◌^◌, ◌∙◌, ◌∷◌, ◌≡◌,
}
use esp_owl.Base.Int.{negsuc, pos, ℤ}
use esp_owl.Ethernet.{EtherAddr, compare_ether_addr}
use esp_owl.Wire.{Buf}
use esp_owl.Sync.{sub64, u64}
use esp_owl.Sync.Update.{init-IsValid}
use esp_owl.State.{AwdlState, awdl_init_state, ieee80211_init_state}
use esp_owl.Election.{awdl_election_run, awdl_election_state_init, ElectionState, Candidate}
use esp_owl.Election.Run.{run-source}
use esp_owl.HashMap.Valid
use esp_owl.HashMap.Laws.{hashmap_new_lem}
use esp_owl.Peers.{Peer}
use esp_owl.Peers.Table.Keys.{address_keys}
use esp_owl.Peers.Table.Hashed.{awdl_peers_init, hashed}
use esp_owl.Peers.Table.Clean.{awdl_peers_remove, awdl_peers_remove_lem}
use esp_owl.CircularBuffer.{circular_buf_full, circular_buf_capacity, circular_buf_get}
use esp_owl.CircularBuffer.Contents
use esp_owl.CircularBuffer.Queue.{contents-get, contents-init, contents-put}
use esp_owl.Schedule.{awdl_can_send_in, awdl_is_multicast_eaw, multicast_guard_tu}
use esp_owl.Core.Daemon.{
  Radio, awdl_send_data, awdl_send_multicast, awdl_send_psf, awdl_send_unicast, awdl_transmit,
  dst_address, transmit_buf, transmit_dst, multicast_step, send_next, try_unicast, unicast_step,
}
use esp_owl.Core.Clean.{awdl_clean_peers, candidates}
use esp_owl.Core.Air.Any.{Air, OfBytes, captured-IsValid}
use esp_owl.Core.Events.{
  Event, Node, Platform, awdl_disable, captured, psf, mif, unicast, multicast, channel, clean,
  packet, disable, happens, on_captured, on_clean, peers_default_timeout, receives,
  wifi_sniffer_init,
}
use esp_owl.Core.Events.Sound.{
  IsSound, count-IsSound, either_node, send_action-IsSound, send_data-IsSound, send_mif-IsSound,
  switch_channel-IsSound,
}

-- The clock, the own address, the table of peers and the queue are in good order.
pub record IsValid (p : Platform) (own : EtherAddr) (d : Node p) : Type 0 where
  pub radio : IsSound own d.radio
  pub table : Valid.IsValid (address_keys p.hash) d.peers
  pub queue : Contents.IsValid d.tx_queue
  pub room : circular_buf_capacity d.tx_queue ≡ 16

-- The node is given frames of bytes, none of which makes awdl_rx hand on more than 16 packets.
abbrev pub Possible : (p : Platform) → Event → Node p → Type 0
Possible p (captured a) d = OfBytes a × ((receives p a d).overrun ≡ false)
Possible p _ d = Unit

-- The states that callbacks lead to, in any order and at any times; a timer may also fire after it
-- has been stopped.
pub data Reaches (p : Platform) (start : Node p) : Node p → Type 0 where
  here : Reaches p start start
  step :
      {d : Node p} (e : Event)
      → Reaches p start d
      → Possible p e d
      → Reaches p start (happens p e d)

module _ {A : Type 0} (Q : A → Type 0) where
  either_way : (test : Bool) (x y : A) → Q x → Q y → Q (if test then x else y)
  either_way true x y h k = h
  either_way false x y h k = k

  either_option :
      {B : Type 0} (o : Option B) (x : A) (f : B → A)
      → Q x
      → ((b : B) → Q (f b))
      → Q (elim o [ none ↦ x | some b ↦ f b ])
  either_option none x f h k = h
  either_option (some b) x f h k = k b

  any_order : (o : Ordering) (x y : A) → Q x → Q y → Q (elim o [ Ordering.eq ↦ x | _ ↦ y ])
  any_order Ordering.eq x y h k = h
  any_order Ordering.lt x y h k = k
  any_order Ordering.gt x y h k = k

  any_wait :
      (w : ℤ) (x : A) (f g : ℕ → A)
      → Q x
      → ((n : ℕ) → Q (f n))
      → ((n : ℕ) → Q (g n))
      → Q (elim w [ pos zero ↦ x | pos (suc n) ↦ f n | negsuc n ↦ g n ])
  any_wait (pos zero) x f g h k l = h
  any_wait (pos (suc n)) x f g h k l = k n
  any_wait (negsuc n) x f g h k l = l n

module _ (p : Platform) (own : EtherAddr) where
  init-IsValid_node :
      (now : ℕ) (garbage : Node p)
      → now < 2 ^ 64
      → IsValid p own (wifi_sniffer_init p own now garbage)
  unfolding wifi_sniffer_init awdl_init_state awdl_election_state_init ieee80211_init_state
      awdl_peers_init
  init-IsValid_node now garbage h =
      let (valid, _, room) = contents-init garbage.tx_queue 16 (omega arith) in
      record {
        radio = record {
          clock = init-IsValid now h;
          address = refl;
          candidate = refl;
          number = omega arith;
        };
        table = (hashmap_new_lem (address_keys p.hash) Peer own).0;
        queue = valid;
        room = room;
      }

  with_radio :
      (r : Radio) (next : Option Buf) (d : Node p)
      → IsSound own r
      → IsValid p own d
      → IsValid p own (record d { radio = r; next = next })
  with_radio r next d k h = record { radio = k; table = h.table; queue = h.queue; room = h.room }

  captured-IsValid_node :
      (a : Air) (d : Node p)
      → Possible p (captured a) d
      → IsValid p own d
      → IsValid p own (on_captured p a d)
  captured-IsValid_node a d (bytes, in_place) h =
      let M = hashed p.hash p.calloc p.fuel in
      let (clock, table, same) =
        captured-IsValid M p.ctrl_len p.peer_garbage p.stack p.fresh p.llc_garbage p.has_netif
          p.sig_len (a ∷ [])
          (record { node = d.radio.node; peers = d.peers; host = []; overrun = false }) (bytes, tt)
          h.radio.clock h.table in_place in
      record {
        radio = record {
          clock = clock;
          address = ap (λ (n : AwdlState). n.self_address) same ∙ h.radio.address;
          candidate = ap (λ (n : AwdlState). n.election.self_addr) same ∙ h.radio.candidate;
          number = h.radio.number;
        };
        table = table;
        queue = h.queue;
        room = h.room;
      }

  elected_self :
      (state : ElectionState) (peers : List Candidate)
      → (awdl_election_run state peers).self_addr ≡ state.self_addr
  elected_self state peers = elim (run-source state peers) [
    | inl leads ↦ leads.self
    | inr (j, c, at, may, follows) ↦ follows.self
  ]

  clean-IsValid : (now : ℕ) (d : Node p) → IsValid p own d → IsValid p own (on_clean p now d)
  unfolding awdl_clean_peers
  clean-IsValid now d h =
      let C = address_keys p.hash in
      let before = sub64 now peers_default_timeout in
      let left = awdl_peers_remove C d.peers before in
      let (table, _) = awdl_peers_remove_lem C d.peers before own p.peer_garbage h.table in
      record {
        radio = record {
          clock = h.radio.clock;
          address = h.radio.address;
          candidate =
              elected_self d.radio.node.election (candidates left.elements left.table_size 0)
              ∙ h.radio.candidate;
          number = h.radio.number;
        };
        table = table;
        queue = h.queue;
        room = h.room;
      }

  try_unicast-IsValid :
      (wait : ℤ) (buf : Buf) (d : Node p)
      → IsValid p own d
      → IsValid p own (try_unicast (hashed p.hash p.calloc p.fuel) wait buf d).0
  unfolding try_unicast
  try_unicast-IsValid (pos zero) buf d h =
      with_radio _ none d
        (count-IsSound own (λ s. record s { tx_data_unicast = u64 (s.tx_data_unicast + 1) })
          (awdl_send_data buf d.radio).1 (send_data-IsSound own buf d.radio h.radio))
        h
  try_unicast-IsValid (pos (suc n)) buf d h = h
  try_unicast-IsValid (negsuc n) buf d h = h

  unicast_step-IsValid :
      (now : ℕ) (buf : Buf) (dst : EtherAddr) (d : Node p)
      → IsValid p own d
      → IsValid p own (unicast_step (hashed p.hash p.calloc p.fuel) now buf dst d).0
  unfolding unicast_step
  unicast_step-IsValid now buf dst d h =
      let M = hashed p.hash p.calloc p.fuel in
      let Q : Node p × ℤ → Type 0 = λ r. IsValid p own r.0 in
      any_order Q (compare_ether_addr dst d.radio.node.self_address) _ _
        (with_radio _ none d
          (record {
            clock = h.radio.clock;
            address = h.radio.address;
            candidate = h.radio.candidate;
            number = h.radio.number;
          })
          h)
        (either_option Q (M.get d.peers dst) _ _ (with_radio d.radio none d h.radio h)
          λ peer. try_unicast-IsValid _ buf d h)

  send_next-IsValid :
      (now : ℕ) (o : Option Buf) (d : Node p)
      → IsValid p own d
      → IsValid p own (send_next (hashed p.hash p.calloc p.fuel) p.dst_garbage now o d).0
  unfolding send_next
  send_next-IsValid now none d h = h
  send_next-IsValid now (some buf) d h = unicast_step-IsValid now buf _ d h

  multicast-IsValid :
      (now : ℕ) (d : Node p)
      → IsValid p own d
      → IsValid p own (awdl_send_multicast (hashed p.hash p.calloc p.fuel) now d).0
  unfolding awdl_send_multicast multicast_step
  multicast-IsValid now d h =
      let Q : Node p × ℤ → Type 0 = λ r. IsValid p own r.0 in
      let (valid, room, _) = contents-get d.tx_queue false h.queue in
      either_option Q (circular_buf_get d.tx_queue false).1 _ _ h λ buf.
        any_wait Q (awdl_can_send_in d.radio.node now multicast_guard_tu) _ _ _
          (either_way Q (awdl_is_multicast_eaw d.radio.node now) _ _
            (record {
              radio =
                  count-IsSound own
                    (λ s. record s { tx_data_multicast = u64 (s.tx_data_multicast + 1) })
                    (awdl_send_data buf d.radio).1 (send_data-IsSound own buf d.radio h.radio);
              table = h.table;
              queue = valid;
              room = room ∙ h.room;
            })
            h)
          (λ _. h) (λ _. h)

  packet-IsValid :
      (stack : Bool) (bytes : List ℕ) (d : Node p)
      → IsValid p own d
      → IsValid p own
          (awdl_transmit
            (hashed p.hash p.calloc p.fuel)
            p.is_multicast_addr
            stack
            p.alloc
            bytes
            d).1
  unfolding awdl_transmit
  packet-IsValid stack bytes d h =
      let Q : Bool × Node p → Type 0 = λ r. IsValid p own r.1 in
      let M = hashed p.hash p.calloc p.fuel in
      let tested = p.is_multicast_addr (dst_address bytes) in
      let buf = transmit_buf p.alloc (transmit_dst tested bytes) bytes in
      let is_multicast = if tested then true else stack in
      let (valid, _, room) = contents-put d.tx_queue buf h.queue in
      either_option Q d.next _ _
        (either_way Q (circular_buf_full d.tx_queue) _ _ h (
          either_way Q is_multicast _ _
            (record { radio = h.radio; table = h.table; queue = valid; room = room ∙ h.room })
            (with_radio d.radio (some buf) d h.radio h)))
        (λ _. h)

  happens-IsValid :
      (e : Event) (d : Node p) → Possible p e d → IsValid p own d → IsValid p own (happens p e d)
  unfolding awdl_send_psf awdl_send_unicast awdl_disable
  happens-IsValid (captured a) d bytes h = captured-IsValid_node a d bytes h
  happens-IsValid (psf started now) d _ h =
      with_radio _ d.next d (send_action-IsSound own started now _ d.radio h.radio) h
  happens-IsValid (mif now started later) d _ h =
      with_radio _ d.next d (send_mif-IsSound own now started later d.radio h.radio) h
  happens-IsValid (unicast now) d _ h = send_next-IsValid now d.next d h
  happens-IsValid (multicast now) d _ h = multicast-IsValid now d h
  happens-IsValid (channel now) d _ h =
      with_radio _ d.next d (switch_channel-IsSound own now d.radio h.radio) h
  happens-IsValid (clean now) d _ h = clean-IsValid now d h
  happens-IsValid (packet stack bytes) d _ h = packet-IsValid stack bytes d h
  happens-IsValid (disable has_netif) d _ h =
      with_radio _ d.next d
        (either_node own has_netif (record d.radio.node { running = false }) d.radio.node d.radio
          (record {
            clock = h.radio.clock;
            address = h.radio.address;
            candidate = h.radio.candidate;
            number = h.radio.number;
          })
          h.radio)
        h

-- In every state that the node can reach from its start, by captured frames of any bytes that make
-- awdl_rx hand on at most 16 packets each, by its timers, by packets from the host, and by being disabled, in any order and at any times, the clock
-- and the table of peers are in good order, the node has its own address, in the election too, the
-- sequence number has twelve bits, and the queue is a queue of at most 16 packets.
pub reaches-IsValid :
    (p : Platform) (own : EtherAddr) (now : ℕ) (garbage d : Node p)
    → now < 2 ^ 64
    → Reaches p (wifi_sniffer_init p own now garbage) d
    → IsValid p own d
reaches-IsValid p own now garbage d h here = init-IsValid_node p own now garbage h
reaches-IsValid p own now garbage d h (step e before possible) =
    happens-IsValid p own e _ possible (reaches-IsValid p own now garbage _ h before)
