-- ===== src/Rx/Announce.antt =====
-- main/owl/tx.c and rx.c: what a node puts into a TLV is what its receiver learns from it.
-- Rx.Announce.Sequence has the TLVs that hold a list or a name.
pub mod Sequence
pub mod Clock
pub mod Mif
pub mod Received
pub mod Frame
use esp_owl.Rx.{rx_ok}
use esp_owl.Base.{
  List, [], arith, drop, false, le_value-le_bytes, length, refl, true, ℕ, ◌%◌, ◌<◌, ◌^◌, ◌∷◌, ◌≡◌,
}
use esp_owl.Wire.{Buf, read_bytes_copy, read_ether_addr, read_le16, read_le32, read_u8}
use esp_owl.Election.{ElectionState}
use esp_owl.Peers.{Peer}
use esp_owl.State.{AwdlState}
use esp_owl.Rx.Tlvs.{
  awdl_handle_data_path_state_tlv, awdl_handle_election_params_tlv,
  awdl_handle_election_params_v2_tlv, awdl_handle_version_tlv,
}
use esp_owl.Tx.Tlvs.{
  awdl_init_data_path_state_tlv, awdl_init_election_params_tlv, awdl_init_election_params_v2_tlv,
  awdl_init_version_tlv,
}

-- `buf_new_const` on the value of a TLV
abbrev pub tlv_buf : List ℕ → Buf
tlv_buf val = record { bytes = val; off = 0; len = length val; owned = false }

-- The values of an election fit their fields.
pub record Fits (e : ElectionState) : Type 0 where
  pub height : e.height < 2 ^ 32
  pub master_metric : e.master_metric < 2 ^ 32
  pub self_metric : e.self_metric < 2 ^ 32
  pub master_counter : e.master_counter < 2 ^ 32
  pub self_counter : e.self_counter < 2 ^ 32

-- The second election TLV of a node whose election fits its fields tells the receiver all of that
-- election; only the receiver's record of the address itself stays.
pub election_v2_announced :
    (src : Peer) (me : AwdlState)
    → Fits me.election
    → awdl_handle_election_params_v2_tlv src
        (tlv_buf (drop 3 (awdl_init_election_params_v2_tlv me)))
      ≡ (
        rx_ok,
        record src {
          election = record me.election { self_addr = src.election.self_addr };
          supports_v2 = true;
        },
      )
unfolding awdl_handle_election_params_v2_tlv awdl_init_election_params_v2_tlv read_le32
    read_ether_addr
election_v2_announced src me f = rw (
  le_value-le_bytes 4 me.election.height f.height,
  le_value-le_bytes 4 me.election.master_metric f.master_metric,
  le_value-le_bytes 4 me.election.self_metric f.self_metric,
  le_value-le_bytes 4 me.election.master_counter f.master_counter,
  le_value-le_bytes 4 me.election.self_counter f.self_counter,
)

-- A receiver that has not heard the second election TLV of a node, whose election fits its fields,
-- takes from the first one the master, both metrics, and the height modulo 256.
pub election_v1_announced :
    (src : Peer) (me : AwdlState)
    → Fits me.election
    → src.supports_v2 ≡ false
    → awdl_handle_election_params_tlv src (tlv_buf (drop 3 (awdl_init_election_params_tlv me))) ≡ (
      rx_ok,
      record src {
        election = record src.election {
          height = me.election.height % 256;
          master_addr = me.election.master_addr;
          master_metric = me.election.master_metric;
          self_metric = me.election.self_metric;
        };
      },
    )
unfolding awdl_handle_election_params_tlv awdl_init_election_params_tlv read_u8 read_le32
    read_ether_addr
election_v1_announced src me f old = simp (
  old,
  le_value-le_bytes 4 me.election.master_metric f.master_metric,
  le_value-le_bytes 4 me.election.self_metric f.self_metric,
)

-- From a peer that is known to send the second one, the first is ignored.
pub election_v1_ignored :
    (src : Peer) (val : Buf)
    → src.supports_v2 ≡ true
    → awdl_handle_election_params_tlv src val ≡ (rx_ok, src)
unfolding awdl_handle_election_params_tlv
election_v1_ignored src val new = simp new

pub version_announced :
    (src : Peer) (me : AwdlState)
    → me.version < 256
    → me.dev_class < 256
    → awdl_handle_version_tlv src (tlv_buf (drop 3 (awdl_init_version_tlv me)))
      ≡ (rx_ok, record src { version = me.version; devclass = me.dev_class })
unfolding awdl_handle_version_tlv awdl_init_version_tlv read_u8
version_announced src me v d =
    let a : me.version % 256 ≡ me.version = omega arith in
    let b : me.dev_class % 256 ≡ me.dev_class = omega arith in rw (a, b)

pub data_path_state_announced :
    (src : Peer) (me : AwdlState)
    → awdl_handle_data_path_state_tlv src (tlv_buf (drop 3 (awdl_init_data_path_state_tlv me)))
      ≡ (rx_ok, record src { country_code = b'X' ∷ b'0' ∷ 0 ∷ [] })
unfolding awdl_handle_data_path_state_tlv awdl_init_data_path_state_tlv read_u8 read_le16
    read_ether_addr read_bytes_copy
data_path_state_announced src me = refl
