-- ===== src/Core/Daemon.antt =====
-- main/wifi/core.c and awdl.c: the state of the daemon, and the callbacks of its timers. A time is
-- in microseconds; where the source has seconds as floating point numbers, they are the
-- microseconds that it divides by a million.
use esp_owl.Base.{
  Bool, List, Option, Ordering, [], drop, false, get_or, if◌then◌else◌, length, ltb, none, not,
  some, suc, take, true, zero, ℕ, ◌%◌, ◌&&◌, ◌*◌, ◌++◌, ◌+◌, ◌/◌, ◌==◌, ◌∷◌,
}
use esp_owl.Base.Int.{neg_part, negsuc, pos, pos_part, ℤ}
use esp_owl.Ethernet.{EtherAddr, compare_ether_addr}
use esp_owl.Wire.{Buf, buf_data, buf_len, buf_strip, read_ether_addr, write_bytes, write_ether_addr}
use esp_owl.Channel.{awdl_chan_num, chan_null, chanseq_length}
use esp_owl.Sync.{awdl_sync_current_eaw, awdl_sync_next_aw_us, ieee80211_tu_to_usec, u64}
use esp_owl.State.{AwdlState, Ieee80211State, Stats}
use esp_owl.Schedule.{
  awdl_can_send_in, awdl_can_send_unicast_in, awdl_is_multicast_eaw, multicast_guard_tu,
  unicast_guard_tu,
}
use esp_owl.Frame.{action_mif, action_psf}
use esp_owl.Tx.Frames.{awdl_init_full_action_frame, awdl_init_full_data_frame}
use esp_owl.Peers.Table.{PeerMap}
use esp_owl.CircularBuffer.{
  CircularBuf, circular_buf_empty, circular_buf_full, circular_buf_get, circular_buf_put,
}
use esp_owl.Core.{in6_addr_to_ether_addr}

-- What the node sends through: its own state, the frames given to the radio and the packets given
-- back to the host, in order.
pub record Radio : Type 0 where
  pub node : AwdlState
  pub ieee : Ieee80211State
  pub sent : List (List ℕ)
  pub host : List (List ℕ)

abbrev pub count_stats : (Stats → Stats) → Radio → Radio
count_stats f r = record r { node = record r.node { stats = f r.node.stats } }

-- `wlan_send`, which always returns 0, when the node is running.
abbrev pub wlan_send : List ℕ → Radio → Radio
wlan_send frame r = if r.node.running then record r { sent = r.sent ++ (frame ∷ []) } else r

-- The result is `TX_OK` or `TX_FAIL`. A buffer begins with the address of its destination.
unfoldable pub awdl_send_data : Buf → Radio → ℤ × Radio
awdl_send_data buf r = elim (read_ether_addr buf (pos 0)) [
  | none ↦ (negsuc 0, r)
  | some dst ↦
      let rest = (buf_strip buf (pos 6)).1 in
      let (frame, node, ieee) =
        awdl_init_full_data_frame r.node.self_address dst (take (buf_len rest) (buf_data rest))
          r.node r.ieee in
      let counted =
        count_stats (λ s. record s { tx_data = u64 (s.tx_data + 1) })
          (record r { node = node; ieee = ieee }) in
      (pos 0, wlan_send frame counted)
]

-- `started` and `now` are the times that the clock gives for the PHY time and the TLVs.
unfoldable pub awdl_send_action : ℕ → ℕ → ℕ → Radio → Radio
awdl_send_action started now type r =
    let (frame, ieee) = awdl_init_full_action_frame started now r.node r.ieee type in
    let after = wlan_send frame (record r { ieee = ieee }) in
    count_stats (λ s. record s { tx_action = u64 (s.tx_action + 1) }) after

unfoldable pub awdl_send_psf : ℕ → ℕ → Radio → Radio
awdl_send_psf started now r = awdl_send_action started now action_psf r

-- The state after the callback, and the time to which the timer is set. `now` is its first look at
-- the clock.
unfoldable pub awdl_send_mif : ℕ → ℕ → ℕ → Radio → Radio × ℕ
awdl_send_mif now started later r =
    let next_aw = awdl_sync_next_aw_us now r.node.sync in
    let eaw_len = r.node.sync.presence_mode * r.node.sync.aw_period in
    let after =
      if ltb 0 (awdl_chan_num r.node.channel.current r.node.channel.enc)
      then awdl_send_action started later action_mif r
      else r in
    (after, u64 (next_aw + ieee80211_tu_to_usec (eaw_len / 2)))

unfoldable pub awdl_switch_channel : ℕ → AwdlState → AwdlState × ℕ
awdl_switch_channel now state =
    let chan_num_old = awdl_chan_num state.channel.current state.channel.enc in
    let slot = awdl_sync_current_eaw now state.sync % chanseq_length in
    let chan_new = get_or state.channel.sequence slot chan_null in
    let chan_num_new = awdl_chan_num chan_new state.channel.enc in
    let after =
      if not (chan_num_new == 0) && not (chan_num_new == chan_num_old)
      then record state { channel = record state.channel { current = chan_new } }
      else state in
    (after, awdl_sync_next_aw_us now state.sync)

-- `timer_rearm` takes microseconds, and gets the seconds, cut to a whole number.
unfoldable pub rearm_time : ℤ → ℕ
rearm_time wait = pos_part wait / 1000000

-- `-in + usec_to_sec(...)`
abbrev pub turned : ℕ → ℤ → ℤ
turned guard wait = pos (neg_part wait + ieee80211_tu_to_usec guard)

-- The destination of an IPv6 packet.
abbrev pub dst_address : List ℕ → List ℕ
dst_address packet = take 16 (drop 24 packet)

-- The destination that the driver writes in front of a packet.
unfoldable pub transmit_dst : Bool → List ℕ → EtherAddr
transmit_dst is_multicast packet =
    let dst_mac = in6_addr_to_ether_addr (dst_address packet) in
    if is_multicast
    then record dst_mac {
      octet0 = 0x33;
      octet1 = 0x33;
      octet2 = 0x80;
      octet3 = 0x00;
      octet4 = 0x00;
    }
    else dst_mac

unfoldable pub transmit_buf : (ℕ → List ℕ) → EtherAddr → List ℕ → Buf
transmit_buf alloc dst packet =
    let n = 6 + length packet in
    let fresh : Buf = record { bytes = alloc n; off = 0; len = n; owned = true } in
    (write_bytes (write_ether_addr fresh (pos 0) dst).1 (pos 6) packet (length packet)).1

module _ (M : PeerMap) where
  -- `struct daemon_state`: the radio, the peers, the packet that waits for its peer, and those
  -- that wait for a multicast slot.
  pub record Daemon : Type 0 where
    pub radio : Radio
    pub peers : M.Table
    pub next : Option Buf
    pub tx_queue : CircularBuf Buf

  -- What becomes of a packet for a peer, by the waiting time of the schedule.
  unfoldable pub try_unicast : ℤ → Buf → Daemon → Daemon × ℤ
  try_unicast (pos zero) buf d = (
    record d {
      radio =
          count_stats (λ s. record s { tx_data_unicast = u64 (s.tx_data_unicast + 1) })
            (awdl_send_data buf d.radio).1;
      next = none;
    },
    pos 0,
  )
  try_unicast (pos (suc n)) buf d = (d, pos (suc n))
  try_unicast (negsuc n) buf d = (d, turned unicast_guard_tu (negsuc n))

  -- What becomes of a packet, and how long to wait if it stays.
  unfoldable pub unicast_step : ℕ → Buf → EtherAddr → Daemon → Daemon × ℤ
  unicast_step now buf dst d = elim (compare_ether_addr dst d.radio.node.self_address) [
    | Ordering.eq ↦ (
      record d {
        radio = record d.radio { host = d.radio.host ++ (take (buf_len buf) (buf_data buf) ∷ []) };
        next = none;
      },
      pos 0,
    )
    | _ ↦ elim (M.get d.peers dst) [
      | none ↦ (record d { next = none }, pos 0)
      | some peer ↦
          try_unicast (awdl_can_send_unicast_in d.radio.node peer now unicast_guard_tu) buf d
    ]
  ]

  abbrev pub rearm : Option Buf → ℤ → Option ℕ
  rearm none wait = none
  rearm (some left) wait = some (rearm_time wait)

  -- The state, and the time to which the timer is set, if it is. `stack` is the variable for the
  -- destination, which a buffer of less than six bytes leaves as it is.
  unfoldable pub send_next : EtherAddr → ℕ → Option Buf → Daemon → Daemon × Option ℕ
  send_next stack now none d = (d, none)
  send_next stack now (some buf) d =
      let dst : EtherAddr = elim (read_ether_addr buf (pos 0)) [ none ↦ stack | some a ↦ a ] in
      let (d', wait) = unicast_step now buf dst d in (d', rearm d'.next wait)

  unfoldable pub awdl_send_unicast : EtherAddr → ℕ → Daemon → Daemon × Option ℕ
  awdl_send_unicast stack now d = send_next stack now d.next d

  -- One packet of the queue, if this is a slot for it, and how long to wait for the next.
  unfoldable pub multicast_step : ℕ → Daemon → Daemon × ℤ
  multicast_step now d =
      let wait = awdl_can_send_in d.radio.node now multicast_guard_tu in
      let (status, packet, queue) = circular_buf_get d.tx_queue false in
      elim packet [
        | none ↦ (d, wait)
        | some buf ↦ elim wait [
          | pos zero ↦
              if awdl_is_multicast_eaw d.radio.node now
              then (
                record d {
                  radio =
                      count_stats
                        (λ s. record s { tx_data_multicast = u64 (s.tx_data_multicast + 1) })
                        (awdl_send_data buf d.radio).1;
                  tx_queue = queue;
                },
                pos 0,
              )
              else (d, pos (ieee80211_tu_to_usec 64))
          | pos (suc n) ↦ (d, pos (suc n))
          | negsuc n ↦ (d, turned multicast_guard_tu (negsuc n))
        ]
      ]

  unfoldable pub awdl_send_multicast : ℕ → Daemon → Daemon × Option ℕ
  awdl_send_multicast now d =
      let (d', wait) = multicast_step now d in
      (d', if circular_buf_empty d'.tx_queue then none else some (rearm_time wait))

  -- The result is whether there was room. `is_multicast_addr` is `ip6_addr_ismulticast` of lwIP,
  -- `stack` is the variable `is_multicast` before, and `alloc n` the array that `malloc(n)` returns.
  unfoldable pub awdl_transmit :
      (List ℕ → Bool) → Bool → (ℕ → List ℕ) → List ℕ → Daemon → Bool × Daemon
  awdl_transmit is_multicast_addr stack alloc packet d = elim d.next [
    | some waiting ↦ (false, d)
    | none ↦
        let tested = is_multicast_addr (dst_address packet) in
        let buf = transmit_buf alloc (transmit_dst tested packet) packet in
        let is_multicast = if tested then true else stack in
        if circular_buf_full d.tx_queue
        then (false, d)
        else if is_multicast
        then (true, record d { tx_queue = circular_buf_put d.tx_queue buf })
        else (true, record d { next = some buf })
  ]
