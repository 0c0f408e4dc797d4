-- ===== src/Rx/Announce/Sequence.antt =====
-- main/owl/tx.c and rx.c: the announcements that hold a list: a name and a channel sequence.
use esp_owl.Rx.{next, rx_ok}
use esp_owl.Base.{
  List, [], ap, append_assoc, ap₂, arith, be_bytes, drop, drop_append, false, length, length-append,
  le→ltb_false, ltb, refl, some, sym, take_append, ℕ, ◌%◌, ◌++◌, ◌+◌, ◌∙◌, ◌∷◌, ◌≡◌, ◌≤◌,
}
use esp_owl.Base.Int.{pos}
use esp_owl.Wire.{read_bytes_copy, read_int_string, read_le16, read_u8}
use esp_owl.Channel.{
  Chan, awdl_chan_encoding_length, awdl_chan_encoding_size, chanseq_length, enc_opclass,
}
use esp_owl.Peers.{Peer, host_name_length_max}
use esp_owl.State.{AwdlState}
use esp_owl.Rx.Tlvs.{awdl_handle_arpa_tlv, awdl_handle_chanseq_tlv, read_chans}
use esp_owl.Tx.Tlvs.{
  awdl_dns_short_local, awdl_init_arpa_tlv, awdl_init_chanseq, awdl_init_chanseq_tlv, chan_bytes,
}
use esp_owl.Rx.Announce.{tlv_buf}

-- A copy from the middle of an array.
read_copy_append :
    (pre xs rest : List ℕ)
    → read_bytes_copy (tlv_buf (pre ++ (xs ++ rest))) (pos (length pre)) (length xs) ≡ some xs
unfolding read_bytes_copy
read_copy_append pre xs rest =
    let total : length (pre ++ (xs ++ rest)) ≡ length pre + (length xs + length rest) =
      omega (arith, length-append pre (xs ++ rest), length-append xs rest) in
    let start : 0 + length pre ≡ length pre = omega arith in
    rw (
      le→ltb_false (length (pre ++ (xs ++ rest))) (length pre + length xs) (omega arith),
      start,
      drop_append pre (xs ++ rest),
      take_append xs rest,
    )

second_byte : (x y : ℕ) (xs : List ℕ) → read_u8 (tlv_buf (x ∷ y ∷ xs)) (pos 1) ≡ some y
unfolding read_u8
second_byte x y xs = rw (le→ltb_false (length (x ∷ y ∷ xs)) 2 (omega arith)) refl

int_string_read :
    (flags : ℕ) (name rest : List ℕ)
    → length name ≤ host_name_length_max
    → read_int_string (tlv_buf (flags ∷ length name ∷ (name ++ rest))) (pos 1) host_name_length_max
      ≡ some (name, length name + 1)
unfolding read_int_string
int_string_read flags name rest h =
    let n = length name in
    rw (
      second_byte flags n (name ++ rest),
      le→ltb_false host_name_length_max n h,
      read_copy_append (flags ∷ n ∷ []) name rest,
    )

pub arpa_announced :
    (src : Peer) (me : AwdlState)
    → length me.name ≤ host_name_length_max
    → awdl_handle_arpa_tlv src (tlv_buf (drop 3 (awdl_init_arpa_tlv me)))
      ≡ (rx_ok, record src { name = me.name })
unfolding awdl_handle_arpa_tlv awdl_init_arpa_tlv
arpa_announced src me h =
    let n = length me.name in
    let small : n % 256 ≡ n = omega arith in
    rw (small, int_string_read 3 me.name (be_bytes 2 awdl_dns_short_local) h)

read_chans-chan_bytes :
    (bytes pre rest : List ℕ) (offset : ℕ) (chans stack : List Chan) (src : Peer)
    → bytes ≡ pre ++ (chan_bytes 2 chans ++ rest)
    → offset ≡ length pre
    → length stack ≡ length chans
    → read_chans (tlv_buf bytes) offset 2 stack src ≡ (next chans, src)
unfolding read_chans
read_chans-chan_bytes bytes pre rest o [] [] src e at h = refl
read_chans-chan_bytes bytes pre rest o [] (c ∷ cs) src e at h = ground (arith, h)
read_chans-chan_bytes bytes pre rest o (c ∷ cs) [] src e at h = ground (arith, h)
read_chans-chan_bytes bytes pre rest o (c ∷ cs) (x ∷ xs) src e at h =
    let two = c.val0 ∷ c.val1 ∷ [] in
    let more = chan_bytes 2 cs ++ rest in
    let first : read_bytes_copy (tlv_buf bytes) (pos o) 2 ≡ some two =
      rw (e, at) (read_copy_append pre two more) in
    let after : o + 2 ≡ length (pre ++ two) = omega (arith, at, length-append pre two) in
    let moved : bytes ≡ (pre ++ two) ++ more = e ∙ sym (append_assoc pre two more) in
    rw (
      first,
      read_chans-chan_bytes bytes (pre ++ two) rest (o + 2) cs xs src moved after
          (omega (arith, h)),
    )

-- The bytes of a channel sequence in two-byte encoding, in front of `rest`.
abbrev two_byte_chanseq : List Chan → List ℕ → List ℕ
two_byte_chanseq chans rest = 15 ∷ enc_opclass ∷ 0 ∷ 3 ∷ 0xff ∷ 0xff ∷ (chan_bytes 2 chans ++ rest)

chanseq_head :
    (enc : ℕ) (xs : List ℕ)
    → let val = tlv_buf (15 ∷ enc ∷ 0 ∷ 3 ∷ 0xff ∷ 0xff ∷ xs) in
      (read_u8 val (pos 0) ≡ some 15)
      × (read_u8 val (pos 2) ≡ some 0)
      × (read_u8 val (pos 3) ≡ some 3)
      × (read_le16 val (pos 4) ≡ some 0xffff)
      × (read_u8 val (pos 1) ≡ some enc)
unfolding read_u8 read_le16
chanseq_head enc xs =
    let n = length (15 ∷ enc ∷ 0 ∷ 3 ∷ 0xff ∷ 0xff ∷ xs) in
    let fits : (k : ℕ) → k ≤ 6 → ltb n k ≡ false = λ k h. le→ltb_false n k (omega arith) in
    (
      rw (fits 1 (omega arith)) refl,
      rw (fits 3 (omega arith)) refl,
      rw (fits 4 (omega arith)) refl,
      rw (fits 6 (omega arith)) refl,
      rw (fits 2 (omega arith)) refl,
    )

handle_two_byte_chanseq :
    (stack chans : List Chan) (rest : List ℕ) (src : Peer) (state : AwdlState)
    → length stack ≡ length chans
    → state.sync.presence_mode ≡ 4
    → awdl_handle_chanseq_tlv stack src (tlv_buf (two_byte_chanseq chans rest)) state
      ≡ (rx_ok, record src { sequence = chans })
unfolding awdl_handle_chanseq_tlv awdl_chan_encoding_size
handle_two_byte_chanseq stack chans rest src state h p =
    let (count, duplicates, steps, fill, enc) =
      chanseq_head enc_opclass (chan_bytes 2 chans ++ rest) in
    let list =
      read_chans-chan_bytes (two_byte_chanseq chans rest)
        (15 ∷ enc_opclass ∷ 0 ∷ 3 ∷ 0xff ∷ 0xff ∷ []) rest 6 chans stack src refl refl h in
    rw (count, duplicates, steps, p, fill, enc, list) refl

two_byte_chanseq_sent :
    (me : AwdlState)
    → me.channel.enc ≡ enc_opclass
    → drop 3 (awdl_init_chanseq_tlv me) ≡ two_byte_chanseq me.channel.sequence (0 ∷ 0 ∷ 0 ∷ [])
unfolding awdl_init_chanseq_tlv awdl_init_chanseq
two_byte_chanseq_sent me enc =
    let two : awdl_chan_encoding_length me.channel.enc ≡ 2 =
      rw enc (unfold awdl_chan_encoding_length in refl) in
    let one : me.channel.enc % 256 ≡ enc_opclass = rw enc refl in
    ap₂
      (λ (k e : ℕ).
        15 ∷ e ∷ 0 ∷ 3 ∷ 0xff ∷ 0xff ∷ (chan_bytes k me.channel.sequence ++ (0 ∷ 0 ∷ 0 ∷ [])))
      two one

pub chanseq_announced :
    (stack : List Chan) (src : Peer) (me state : AwdlState)
    → length stack ≡ chanseq_length
    → length me.channel.sequence ≡ chanseq_length
    → me.channel.enc ≡ enc_opclass
    → state.sync.presence_mode ≡ 4
    → awdl_handle_chanseq_tlv stack src (tlv_buf (drop 3 (awdl_init_chanseq_tlv me))) state
      ≡ (rx_ok, record src { sequence = me.channel.sequence })
chanseq_announced stack src me state h h' enc p =
    ap (λ (val : List ℕ). awdl_handle_chanseq_tlv stack src (tlv_buf val) state)
      (two_byte_chanseq_sent me enc)
    ∙ handle_two_byte_chanseq stack me.channel.sequence (0 ∷ 0 ∷ 0 ∷ []) src state (h ∙ sym h') p
