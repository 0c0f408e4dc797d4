-- ===== src/Rx/Data.antt =====
-- main/owl/rx.c: the LLC header, a data frame and an aggregate of them.
use esp_owl.Rx.{
  Statement, assign, current, finish, following, next, return_if, rx_ignore_peer, rx_too_short,
  rx_unexpected_format, try, ◌>>=◌, ◌>>◌,
}
use esp_owl.Base.{
  Bool, List, [], false, if◌then◌else◌, ltb, not, suc, true, zero, ℕ, ◌%◌, ◌&&◌, ◌++◌, ◌+◌, ◌-◌,
  ◌==◌, ◌∷◌,
}
use esp_owl.Base.Int.{ltb_ℤ, pos, ℤ, ◌+ℤ◌}
use esp_owl.Ethernet.{EtherAddr}
use esp_owl.Wire.{
  Buf, buf_data, buf_len, buf_strip, buf_take, checked, read_be16, read_bytes_copy, read_ether_addr,
  read_u8, write_be16, write_bytes, write_ether_addr, write_u8,
}
use esp_owl.Sync.{u64}
use esp_owl.Peers.Table.{PeerMap, awdl_peer_get, is_failure}
use esp_owl.Frame.{awdl_llc_protocol_id}
use esp_owl.Rx.Action.{RxState, strip_frame}

-- `struct llc_hdr`
pub record LlcHdr : Type 0 where
  pub dsap : ℕ
  pub ssap : ℕ
  pub control : ℕ
  pub oui : List ℕ
  pub pid : ℕ

-- `sizeof(struct llc_hdr)`, `sizeof(struct awdl_data)` and `ETHER_MAX_LEN`
abbrev pub llc_hdr_len : ℕ
llc_hdr_len = 8

abbrev pub awdl_data_len : ℕ
awdl_data_len = 8

abbrev pub ether_max_len : ℕ
ether_max_len = 1518

-- The header goes through the pointer as far as it could be read: it is used on success only.
unfoldable pub llc_parse : Buf → Statement LlcHdr Bool
llc_parse frame = do
  dsap ← try (read_u8 frame (pos 0))
  assign (λ h. record h { dsap = dsap })
  ssap ← try (read_u8 frame (pos 1))
  assign (λ h. record h { ssap = ssap })
  control ← try (read_u8 frame (pos 2))
  assign (λ h. record h { control = control })
  oui ← try (read_bytes_copy frame (pos 3) 3)
  assign (λ h. record h { oui = oui })
  pid ← try (read_be16 frame (pos 6))
  assign (λ h. record h { pid = pid })

unfoldable pub is_llc_header : LlcHdr → Bool
is_llc_header llc =
    llc.dsap == 0xaa
    && (llc.ssap == 0xaa && (llc.control == 0x03 && llc.pid == awdl_llc_protocol_id))

-- `garbage` is the variable `llc` before the parse.
unfoldable pub awdl_valid_llc_header : LlcHdr → Buf → Bool
awdl_valid_llc_header garbage frame =
    let (code, llc) = finish (llc_parse frame garbage) in
    if ltb_ℤ code (pos 0) then false else is_llc_header llc

-- `offset += write_…(out, offset, …)`
abbrev pub push : (ℤ → ℤ × Buf) → ℤ → ℤ × Buf
push write offset = let (n, out) = write offset in (offset +ℤ n, out)

-- The Ethernet frame that is made of a payload, in the array `fresh` that `malloc` returns.
unfoldable pub ether_frame : List ℕ → EtherAddr → EtherAddr → ℕ → Buf → Buf
ether_frame fresh dst src ether_type frame =
    let b0 : Buf = record { bytes = fresh; off = 0; len = ether_max_len; owned = true } in
    let (o1, b1) = push (λ o. write_ether_addr b0 o dst) (pos 0) in
    let (o2, b2) = push (λ o. write_ether_addr b1 o src) o1 in
    let (o3, b3) = push (λ o. write_be16 b2 o ether_type) o2 in
    let (o4, b4) = push (λ o. write_u8 b3 o (buf_len frame)) o3 in
    (write_bytes b4 o4 (buf_data frame) (buf_len frame)).1

module _ (M : PeerMap) (fresh : List ℕ) (garbage : LlcHdr) where
  unfoldable pub awdl_rx_data : EtherAddr → EtherAddr → Statement (RxState M.Table) Bool
  awdl_rx_data src dst = do
    assign (λ s. record s {
      node = record s.node {
        stats = record s.node.stats { rx_data = u64 (s.node.stats.rx_data + 1) };
      };
    })
    s ← current
    return_if (is_failure (awdl_peer_get M s.peers src).0) rx_ignore_peer
    return_if (not (awdl_valid_llc_header garbage s.frame)) rx_unexpected_format
    assign (strip_frame llc_hdr_len)
    body ← current
    return_if (ltb (buf_len body.frame) awdl_data_len) rx_too_short
    ether_type ← try (read_be16 body.frame (pos 6))
    assign (strip_frame awdl_data_len)
    assign (λ s. record s { frame = (buf_take s.frame (pos 4)).1 })
    assign (λ s. record s { out = s.out ++ (ether_frame fresh dst src ether_type s.frame ∷ []) })

  -- `(4 - ((14 + len_a) % 4)) % 4`
  unfoldable pub padding : ℕ → ℕ
  padding len = (4 - (14 + len) % 4) % 4

  abbrev pub strip_checked : ℕ → Statement (RxState M.Table) Bool
  strip_checked n = do
    s ← current
    rest ← try (checked (buf_strip s.frame (pos n)))
    assign (λ s. record s { frame = rest })

  -- `err = awdl_rx_data(subframe, ...)` on a view of the first `len` bytes of the frame.
  unfoldable pub rx_part : EtherAddr → EtherAddr → ℕ → Statement (RxState M.Table) ℤ
  unfolding awdl_rx_data
  rx_part src dst len s =
      let part : Buf = record { bytes = buf_data s.frame; off = 0; len = len; owned = false } in
      let (err, s') = finish (awdl_rx_data src dst (record s { frame = part })) in
      (next err, record s' { frame = s.frame })

  -- One subframe, of a frame that is not empty.
  unfoldable pub subframe : Statement (RxState M.Table) Bool
  unfolding rx_part
  subframe = do
    s ← current
    dst ← try (read_ether_addr s.frame (pos 0))
    src ← try (read_ether_addr s.frame (pos 6))
    len ← try (read_be16 s.frame (pos 12))
    strip_checked 14
    rest ← current
    return_if (ltb (buf_len rest.frame) len) rx_too_short
    err ← rx_part src dst len
    return_if (ltb_ℤ err (pos 0)) err
    strip_checked len
    left ← current
    if ltb 0 (buf_len left.frame) then strip_checked (padding len) else assign (λ s. s)

  -- Every subframe has at least 14 bytes: as many rounds as the frame has bytes are enough.
  unfoldable pub awdl_rx_data_amsdu : ℕ → Statement (RxState M.Table) Bool
  unfolding subframe
  awdl_rx_data_amsdu zero s = (next true, s)
  awdl_rx_data_amsdu (suc rounds) s =
      if ltb 0 (buf_len s.frame)
      then following (subframe s) (λ _. awdl_rx_data_amsdu rounds)
      else (next true, s)
