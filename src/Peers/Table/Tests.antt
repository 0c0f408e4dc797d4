-- ===== src/Peers/Table/Tests.antt =====
-- The peers of main/owl/peers.c in a table that is a function of the address.
use esp_owl.Base.{
  Bool, Option, [], arith, false, if◌then◌else◌, inr, leb, none, refl, some, true, ℕ, ◌↔◌, ◌≡◌, ◌≢◌,
  ◌≤◌,
}
use esp_owl.Ethernet.{EtherAddr}
use esp_owl.Election.{ElectionState}
use esp_owl.Peers.{Peer, awdl_peer_is_valid, awdl_peer_new}
use esp_owl.Peers.Table.Keys.{address_keys, same, same_apart, same_refl}
use esp_owl.Peers.Table.{PeerMap, awdl_peer_add, peers_update, turn_valid}
use esp_owl.HashMap.{
  blank, free, hashmap_get, hashmap_hash, hashmap_hash_int, hashmap_it_new, hashmap_it_next,
  hashmap_it_remove, hashmap_length, hashmap_put, index_of, probe_get, probe_hash, scan, store,
  write_through,
}
use esp_owl.HashMap.Valid.{IsValid}
use esp_owl.Peers.Table.Clean.{awdl_peers_remove, awdl_peers_remove_lem, remove_old}
use esp_owl.HashMap.Move.{empty-IsValid}
use esp_owl.Peers.Table.Hashed.{Peers, hashed}
use esp_owl.Peers.Table.Update.{get-add}

abbrev pub node : ℕ → EtherAddr
node n = record { octet0 = 2; octet1 = 0; octet2 = 0; octet3 = 0; octet4 = 0; octet5 = n }

abbrev pub Entries : Type 0
Entries = EtherAddr → Option Peer

abbrev pub with_entry : Entries → EtherAddr → Option Peer → Entries
with_entry t a e b = if same a b then e else t b

pub with_entry_other :
    (t : Entries) (a : EtherAddr) (e : Option Peer) (b : EtherAddr)
    → a ≢ b
    → with_entry t a e b ≡ t b
with_entry_other t a e b apart = rw (same_apart a b apart) refl

abbrev pub entries : PeerMap
entries = record {
  Table = Entries;
  IsValid = λ t. Unit;
  get = λ t a. t a;
  set = λ t a p. with_entry t a (some p);
  put = λ t a p. (true, with_entry t a (some p));
  remove = λ t a. with_entry t a none;
  get-set = λ t a p q ok e. (tt, rw (same_refl a) refl, with_entry_other t a (some q));
  get-put = λ t a q ok e. (tt, inr (refl, rw (same_refl a) refl, with_entry_other t a (some q)));
  get-remove = λ t a ok. (tt, rw (same_refl a) refl, with_entry_other t a none);
}

abbrev pub nobody : ElectionState
nobody = record {
  master_addr = node 0;
  sync_addr = node 0;
  self_addr = node 0;
  height = 0;
  master_metric = 0;
  self_metric = 0;
  master_counter = 0;
  self_counter = 0;
}

-- A peer that has sent its version and a MIF, heard at 5.
abbrev pub ready : Peer
ready = record {
  addr = node 7;
  last_update = 5;
  election = nobody;
  sequence = [];
  sync_offset = 0;
  name = [];
  country_code = [];
  infra_addr = node 0;
  version = 52;
  devclass = 1;
  supports_v2 = true;
  sent_mif = true;
  is_valid = false;
}

abbrev pub one_peer : Entries
one_peer = with_entry (λ _. none) (node 7) (some ready)

-- Heard again at 9, the peer turns valid and is handed to the callback.
turns_valid : awdl_peer_add entries ready one_peer (node 7) 9 ≡ (
  peers_update,
  with_entry one_peer (node 7) (some (record ready { last_update = 9; is_valid = true })),
  some (record ready { last_update = 9; is_valid = true }),
)
unfolding awdl_peer_add turn_valid awdl_peer_is_valid
turns_valid = refl

-- A hash function, and a memory for tables of up to 1024 elements.
abbrev pub last_octet : EtherAddr → ℕ
last_octet a = a.octet5

abbrev pub small_memory : ℕ → Bool
small_memory n = leb n 1024

abbrev pub small : PeerMap
small = hashed last_octet small_memory 3

abbrev pub no_peers : Peers
no_peers = record { table_size = 256; size = 0; elements = λ _. free }

pub no_peers-IsValid : small.IsValid no_peers
no_peers-IsValid = empty-IsValid (address_keys last_octet) 256 (omega arith)

-- The peer 7, heard at 9, in the hash map.
abbrev pub heard_at_nine : Peers
heard_at_nine = (awdl_peer_add small ready no_peers (node 7) 9).1

pub heard_at_nine-IsValid : small.IsValid heard_at_nine
heard_at_nine-IsValid = (get-add small ready no_peers (node 7) 9 no_peers-IsValid).0

stays_and_goes :
    (hashmap_length (awdl_peers_remove (address_keys last_octet) heard_at_nine 9) ≡ 1)
    × (hashmap_length (awdl_peers_remove (address_keys last_octet) heard_at_nine 10) ≡ 0)
unfolding awdl_peer_add awdl_peers_remove hashmap_length remove_old hashmap_it_new hashmap_it_next
    scan hashmap_it_remove blank hashmap_get hashmap_put hashmap_hash probe_hash hashmap_hash_int
    store index_of probe_get write_through turn_valid awdl_peer_is_valid awdl_peer_new
stays_and_goes = (refl, refl)

awdl_peers_remove_lem_example :
    let peers' = awdl_peers_remove (address_keys last_octet) heard_at_nine 10 in
    IsValid (address_keys last_octet) peers'
    × (((hashmap_get (address_keys last_octet) peers' (node 7) false).1 ≡ some ready) ↔ (
        ((hashmap_get (address_keys last_octet) heard_at_nine (node 7) false).1 ≡ some ready)
        × (10 ≤ ready.last_update)))
awdl_peers_remove_lem_example =
    awdl_peers_remove_lem (address_keys last_octet) heard_at_nine 10 (node 7) ready
      heard_at_nine-IsValid
