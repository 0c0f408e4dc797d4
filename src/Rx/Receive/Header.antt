-- ===== src/Rx/Receive/Header.antt =====
-- main/owl/rx.c: what `awdl_rx` reads in the header of a frame that a node sends (main/owl/tx.c).
use esp_owl.Base.{
  List, [], ap, arith, drop, drop_append, get_elem?, le_bytes, le_value, le_value-le_bytes, length,
  length-append, some, take, ℕ, ◌++◌, ◌+◌, ◌<◌, ◌^◌, ◌∙◌, ◌∷◌, ◌≡◌,
}
use esp_owl.Base.Int.{pos}
use esp_owl.Ethernet.{EtherAddr, ether_addr_of, octets}
use esp_owl.Wire.{Buf, buf_strip, checked, read_bytes, read_ether_addr, read_le16, read_u8}
use esp_owl.Wire.View.{
  IsValid, checked-buf_strip, length-view, reads-view, slice?, strip-take-view, view,
}
use esp_owl.Wire.Tlvs.{slice?_append}
use esp_owl.Frame.{awdl_bssid}
use mathlib.Core.Option

-- A header with a type and a sequence control, as ieee80211_init_awdl_hdr makes it.
abbrev pub hdr_bytes : ℕ → EtherAddr → EtherAddr → ℕ → List ℕ
hdr_bytes type src dst control =
    le_bytes 2 type
    ++ (le_bytes 2 0 ++ (octets dst ++ (octets src ++ (octets awdl_bssid ++ le_bytes 2 control))))

-- The buffers behind the header of the driver, and behind that of the frame.
abbrev pub behind : ℕ → Buf → Buf
behind n frame = (buf_strip frame (pos n)).1

pub record HdrRead (frame : Buf) (ctrl_len rssi type : ℕ) (src dst : EtherAddr) (body : List ℕ)
    : Type 0 where
  pub first : read_u8 frame (pos 0) ≡ some rssi
  pub ctrl : checked (buf_strip frame (pos ctrl_len)) ≡ some (behind ctrl_len frame)
  pub bytes : List ℕ
  pub whole : read_bytes (behind ctrl_len frame) (pos 0) 24 ≡ some bytes
  pub control : read_le16 (behind ctrl_len frame) (pos 0) ≡ some type
  pub to : read_ether_addr (behind ctrl_len frame) (pos 4) ≡ some dst
  pub from : read_ether_addr (behind ctrl_len frame) (pos 10) ≡ some src
  pub hdr :
      checked (buf_strip (behind ctrl_len frame) (pos 24))
      ≡ some (behind 24 (behind ctrl_len frame))
  pub valid : IsValid (behind 24 (behind ctrl_len frame))
  pub rest : view (behind 24 (behind ctrl_len frame)) ≡ body

pub hdr_read :
    (frame : Buf) (rssi type control : ℕ) (src dst : EtherAddr) (ctrl body : List ℕ)
    → IsValid frame
    → view frame ≡ (rssi ∷ ctrl) ++ (hdr_bytes type src dst control ++ body)
    → type < 2 ^ 16
    → HdrRead frame (length (rssi ∷ ctrl)) rssi type src dst body
hdr_read frame rssi type control src dst ctrl body v e small =
    let n = length (rssi ∷ ctrl) in
    let hdr = hdr_bytes type src dst control in
    let total : frame.len ≡ n + (24 + length body) =
      omega (arith, length-view frame v, ap length e, length-append (rssi ∷ ctrl) (hdr ++ body)) in
    let (view1, _, valid1, _, _, _, _) = strip-take-view frame n v (omega (arith, total)) in
    let f1 = behind n frame in
    let seen1 : view f1 ≡ hdr ++ body =
      view1 ∙ ap (drop n) e ∙ drop_append (rssi ∷ ctrl) (hdr ++ body) in
    let long1 : f1.len ≡ 24 + length body = omega (arith, length-view f1 valid1, ap length seen1) in
    let (view2, _, valid2, _, _, _, _) = strip-take-view f1 24 valid1 (omega (arith, long1)) in
    record {
      first = (reads-view frame 0 0 v).0 ∙ ap (λ (xs : List ℕ). get_elem? xs 0) e;
      ctrl = checked-buf_strip frame n (omega (arith, total));
      bytes = hdr;
      whole =
          (reads-view f1 0 24 valid1).6
          ∙ (ap (λ (xs : List ℕ). slice? xs 0 24) seen1 ∙ slice?_append [] hdr body);
      control =
          (reads-view f1 0 0 valid1).1
          ∙ (ap (λ (xs : List ℕ). Option.map le_value (slice? xs 0 2)) seen1
              ∙ ap (Option.map le_value) (slice?_append [] (le_bytes 2 type) (drop 2 hdr ++ body))
              ∙ ap some (le_value-le_bytes 2 type small));
      to =
          (reads-view f1 4 0 valid1).5
          ∙ (ap (λ (xs : List ℕ). Option.map ether_addr_of (slice? xs 4 6)) seen1
              ∙ ap (Option.map ether_addr_of)
                  (slice?_append (take 4 hdr) (octets dst) (drop 10 hdr ++ body)));
      from =
          (reads-view f1 10 0 valid1).5
          ∙ (ap (λ (xs : List ℕ). Option.map ether_addr_of (slice? xs 10 6)) seen1
              ∙ ap (Option.map ether_addr_of)
                  (slice?_append (take 10 hdr) (octets src) (drop 16 hdr ++ body)));
      hdr = checked-buf_strip f1 24 (omega (arith, long1));
      valid = valid2;
      rest = view2 ∙ ap (drop 24) seen1;
    }
