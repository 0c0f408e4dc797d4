-- ===== src/Peers.antt =====
-- main/owl/peers.h and peers.c: what a node knows of a peer.
pub mod Table
use esp_owl.Base.{Bool, List, [], false, not, ℕ, ◌&&◌, ◌==◌, ◌∷◌}
use esp_owl.Ethernet.{EtherAddr}
use esp_owl.Channel.{Chan, awdl_chanseq_init_static, chan_null}
use esp_owl.Election.{ElectionState, awdl_election_state_init}

abbrev pub host_name_length_max : ℕ
host_name_length_max = 64

-- `struct awdl_peer`. `name` holds the bytes before the zero that ends it, `country_code` its
-- three bytes.
pub record Peer : Type 0 where
  pub addr : EtherAddr
  pub last_update : ℕ
  pub election : ElectionState
  pub sequence : List Chan
  pub sync_offset : ℕ
  pub name : List ℕ
  pub country_code : List ℕ
  pub infra_addr : EtherAddr
  pub version : ℕ
  pub devclass : ℕ
  pub supports_v2 : Bool
  pub sent_mif : Bool
  pub is_valid : Bool

-- Every field but `infra_addr` is set; that one stays what `malloc` left there.
unfoldable pub awdl_peer_new : Peer → EtherAddr → Peer
unfolding awdl_election_state_init awdl_chanseq_init_static
awdl_peer_new garbage addr = record {
  addr = addr;
  last_update = 0;
  election = awdl_election_state_init garbage.election addr;
  sequence = awdl_chanseq_init_static chan_null;
  sync_offset = 0;
  name = [];
  country_code = b'N' ∷ b'A' ∷ 0 ∷ [];
  infra_addr = garbage.infra_addr;
  version = 0;
  devclass = 0;
  supports_v2 = false;
  sent_mif = false;
  is_valid = false;
}

-- `peer->sent_mif && peer->devclass && peer->version`
unfoldable pub awdl_peer_is_valid : Peer → Bool
awdl_peer_is_valid peer = peer.sent_mif && (not (peer.devclass == 0) && not (peer.version == 0))
