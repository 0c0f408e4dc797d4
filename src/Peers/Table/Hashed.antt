-- ===== src/Peers/Table/Hashed.antt =====
-- The peers of main/owl/peers.c in the hash map of main/owl/hashmap.c.
use esp_owl.Base.{Bool, Option, ap, false, inl, inr, none, some, true, ℕ, ◌≡◌, ◌≢◌, ◌⊎◌}
use esp_owl.Ethernet.{EtherAddr}
use esp_owl.HashMap.{
  HashMap, Keys, MapIt, MapStatus, hashmap_get, hashmap_it_next, hashmap_it_remove, hashmap_length,
  hashmap_new, hashmap_put, is_ok, map_full, map_missing, map_ok, map_omem, write_through,
}
use esp_owl.HashMap.Valid.{IsValid}
use esp_owl.HashMap.Lookup.{lookup, lookup-eq-some}
use esp_owl.HashMap.Write.{
  lookup-written_through, lookup-written_through_other, write_through-at, written_through-IsValid,
}
use esp_owl.HashMap.Laws.{hashmap_get-put, hashmap_get-remove}
use esp_owl.Peers.{Peer}
use esp_owl.Peers.Table.{PeerMap, PeersStatus, peers_missing, peers_ok}
use esp_owl.Peers.Table.Keys.{address_keys}

abbrev pub Peers : Type 0
Peers = HashMap EtherAddr Peer

module _ (hash : EtherAddr → ℕ) where
  abbrev keys : Keys
  keys = address_keys hash

  pub write_through_lem :
      (m : Peers) (a : EtherAddr) (p q : Peer)
      → IsValid keys m
      → lookup keys m a ≡ some p
      → IsValid keys (write_through keys m a q)
        × (lookup keys (write_through keys m a q) a ≡ some q)
        × ((b : EtherAddr) → a ≢ b → lookup keys (write_through keys m a q) b ≡ lookup keys m b)
  write_through_lem m a p q ok h =
      let (i, bound, e, here) = lookup-eq-some keys ok a p h in
      rw (write_through-at keys ok a p i bound e here q) (
        written_through-IsValid keys ok a p i bound e here q,
        lookup-written_through keys ok a p i bound e here q,
        lookup-written_through_other keys ok a p i bound e here q,
      )

  pub put_lem :
      (calloc : ℕ → Bool) (fuel : ℕ) (m : Peers) (a : EtherAddr) (q : Peer)
      → IsValid keys m
      → lookup keys m a ≡ none
      → let r = hashmap_put keys calloc fuel a q m in
        IsValid keys r.1
        × ((is_ok r.0 ≡ false)
            ⊎ ((is_ok r.0 ≡ true)
                × (lookup keys r.1 a ≡ some q)
                × ((b : EtherAddr) → a ≢ b → lookup keys r.1 b ≡ lookup keys m b)))
  put_lem calloc fuel m a q ok missing =
      let (valid, _, result) = hashmap_get-put keys calloc fuel a q m ok missing in
      (
        valid,
        elim result [
          | inl (omem, _) ↦ inl (ap is_ok omem)
          | inr (done, self, others) ↦ inr (ap is_ok done, self, others)
        ],
      )

  pub remove_lem :
      (m : Peers) (a : EtherAddr)
      → IsValid keys m
      → IsValid keys (hashmap_get keys m a true).2
        × (lookup keys (hashmap_get keys m a true).2 a ≡ none)
        × ((b : EtherAddr) → a ≢ b → lookup keys (hashmap_get keys m a true).2 b ≡ lookup keys m b)
  remove_lem m a ok =
      let (status, value, valid, gone, others, size) = hashmap_get-remove keys a m ok in
      (valid, gone, others)

-- The hash map as a table of peers.
abbrev pub hashed : (EtherAddr → ℕ) → (ℕ → Bool) → ℕ → PeerMap
hashed hash calloc fuel = record {
  Table = Peers;
  IsValid = IsValid (address_keys hash);
  get = lookup (address_keys hash);
  set = write_through (address_keys hash);
  put = λ t a p.
      let (status, t') = hashmap_put (address_keys hash) calloc fuel a p t in (is_ok status, t');
  remove = λ t a. (hashmap_get (address_keys hash) t a true).2;
  get-set = write_through_lem hash;
  get-put = put_lem hash calloc fuel;
  get-remove = remove_lem hash;
}

-- `awdl_peers_init` and `awdl_peers_length`, and the iterator as main/owl/peers.c passes it on.
unfoldable pub awdl_peers_init : Peers
unfolding hashmap_new
awdl_peers_init = hashmap_new

unfoldable pub awdl_peers_length : Peers → ℕ
unfolding hashmap_length
awdl_peers_length peers = hashmap_length peers

abbrev pub peers_status : MapStatus → PeersStatus
peers_status map_ok = peers_ok
peers_status map_omem = peers_missing
peers_status map_full = peers_missing
peers_status map_missing = peers_missing

unfoldable pub awdl_peers_it_next :
    MapIt EtherAddr Peer → PeersStatus × Option (EtherAddr × Peer) × MapIt EtherAddr Peer
unfolding hashmap_it_next
awdl_peers_it_next it =
    let (status, entry, it') = hashmap_it_next it in (peers_status status, entry, it')

unfoldable pub awdl_peers_it_remove :
    (EtherAddr → ℕ) → MapIt EtherAddr Peer → PeersStatus × MapIt EtherAddr Peer
unfolding hashmap_it_remove
awdl_peers_it_remove hash it =
    let (status, it') = hashmap_it_remove (address_keys hash) it in (peers_status status, it')
