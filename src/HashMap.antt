-- ===== src/HashMap.antt =====
-- main/owl/hashmap.c: the open-addressing hash map.
pub mod Probe
pub mod Valid
pub mod Lookup
pub mod Write
pub mod Laws
pub mod Move
pub mod Rehash
pub mod Fuel
pub mod Iterate
pub mod Tests
use esp_owl.Base.{
  Bool, Option, false, if◌then◌else◌, leb, none, put_at, some, suc, true, zero, ℕ, ◌%◌, ◌*◌, ◌+◌,
  ◌-◌, ◌/◌, ◌||◌, ◌≡◌,
}

-- What the map uses of its keys: the hash of a key (main/owl/siphash24.c under the seed of zeros),
-- and `memcmp` on its bytes.
pub record Keys : Type 1 where
  pub Key : Type 0
  pub hash : Key → ℕ
  pub same : Key → Key → Bool
  pub same_refl : (a : Key) → same a a ≡ true
  pub same-eq : (a b : Key) → same a b ≡ true → a ≡ b

-- `enum map_status`
pub data MapStatus : Type 0 where
  map_ok : MapStatus
  map_omem : MapStatus
  map_full : MapStatus
  map_missing : MapStatus

abbrev pub is_ok : MapStatus → Bool
is_ok map_ok = true
is_ok map_omem = false
is_ok map_full = false
is_ok map_missing = false

-- `hashmap_element`: the key and the data are null when the element is not in use.
pub data Element (K V : Type 0) : Type 0 where
  free : Element K V
  used : K → V → Element K V

-- `hashmap_map`, without the length of a key and the seed. The array is a function of the index;
-- no index from `table_size` on is read or written.
pub record HashMap (K V : Type 0) : Type 0 where
  pub table_size : ℕ
  pub size : ℕ
  pub elements : ℕ → Element K V

abbrev pub Elements : Type 0 → Type 0 → Type 0
Elements K V = ℕ → Element K V

abbrev pub Put : Type 0 → Type 0 → Type 0
Put K V = K → V → HashMap K V → MapStatus × HashMap K V

abbrev pub initial_size : ℕ
initial_size = 256

abbrev pub max_chain_length : ℕ
max_chain_length = 8

-- `in_use == 0`
abbrev pub is_free : {K V : Type 0} → Element K V → Bool
is_free free = true
is_free (used k v) = false

abbrev pub value_of : {K V : Type 0} → Element K V → Option V
value_of free = none
value_of (used k v) = some v

-- `calloc` zeroes the elements: none is in use.
unfoldable pub hashmap_new : {K V : Type 0} → HashMap K V
hashmap_new = record { table_size = initial_size; size = 0; elements = λ _. free }

unfoldable pub hashmap_length : {K V : Type 0} → HashMap K V → ℕ
hashmap_length m = m.size

module _ (C : Keys) {V : Type 0} where
  -- `in_use == 1` and `memcmp(...) == 0`
  abbrev pub holds : Element C.Key V → C.Key → Bool
  holds free key = false
  holds (used k v) key = C.same k key

  unfoldable pub hashmap_hash_int : HashMap C.Key V → C.Key → ℕ
  hashmap_hash_int m key = C.hash key % m.table_size

  -- The linear probing of `hashmap_hash`, which stops at an element that is not in use.
  unfoldable pub probe_hash : Elements C.Key V → ℕ → C.Key → ℕ → ℕ → Option ℕ
  probe_hash elements table_size key zero curr = none
  probe_hash elements table_size key (suc i) curr =
      let rest = probe_hash elements table_size key i ((curr + 1) % table_size) in
      if is_free (elements curr)
      then some curr
      else if holds (elements curr) key
      then some curr
      else rest

  -- `none` is `MAP_FULL`.
  unfoldable pub hashmap_hash : HashMap C.Key V → C.Key → Option ℕ
  hashmap_hash m key =
      if leb (m.table_size / 2) m.size
      then none
      else probe_hash m.elements m.table_size key max_chain_length (hashmap_hash_int m key)

  -- The linear probing of `hashmap_get`, which goes on behind an element that is not in use.
  unfoldable pub probe_get : Elements C.Key V → ℕ → C.Key → ℕ → ℕ → Option ℕ
  probe_get elements table_size key zero curr = none
  probe_get elements table_size key (suc i) curr =
      let rest = probe_get elements table_size key i ((curr + 1) % table_size) in
      if holds (elements curr) key then some curr else rest

  -- The index at which `hashmap_get` finds the key.
  unfoldable pub index_of : HashMap C.Key V → C.Key → Option ℕ
  index_of m key = probe_get m.elements m.table_size key max_chain_length (hashmap_hash_int m key)

  -- Blanks an element. The source subtracts from a signed number.
  unfoldable pub blank : HashMap C.Key V → ℕ → HashMap C.Key V
  blank m i = record m { size = m.size - 1; elements = put_at m.elements i free }

  unfoldable pub hashmap_get :
      HashMap C.Key V → C.Key → Bool → MapStatus × Option V × HashMap C.Key V
  hashmap_get m key remove = elim (index_of m key) [
    | none ↦ (map_missing, none, m)
    | some curr ↦ (map_ok, value_of (m.elements curr), if remove then blank m curr else m)
  ]

  -- `Set the data`
  unfoldable pub store : HashMap C.Key V → ℕ → C.Key → V → HashMap C.Key V
  store m index key value = record m {
    size = m.size + 1;
    elements = put_at m.elements index (used key value);
  }

  -- What a caller does that writes through the pointer to the data of a key.
  unfoldable pub write_through : HashMap C.Key V → C.Key → V → HashMap C.Key V
  write_through m key value = elim (index_of m key) [
    | none ↦ m
    | some curr ↦ record m { elements = put_at m.elements curr (used key value) }
  ]

  -- `Rehash the elements`: the loop over the old array from `i` on, for `n` elements.
  unfoldable pub reinsert :
      Put C.Key V → Elements C.Key V → ℕ → ℕ → HashMap C.Key V → MapStatus × HashMap C.Key V
  reinsert put curr zero i m = (map_ok, m)
  reinsert put curr (suc n) i m = elim (curr i) [
    | free ↦ reinsert put curr n (i + 1) m
    | used key value ↦
        let (status, m') = put key value m in
        if is_ok status then reinsert put curr n (i + 1) m' else (status, m')
  ]

  -- `calloc` says whether there is memory for so many elements.
  unfoldable pub hashmap_rehash :
      (ℕ → Bool) → Put C.Key V → HashMap C.Key V → MapStatus × HashMap C.Key V
  hashmap_rehash calloc put m =
      if calloc (2 * m.table_size)
      then reinsert put m.elements m.table_size 0
          (record { table_size = 2 * m.table_size; size = 0; elements = λ _. free })
      else (map_omem, m)

  -- The loop of `hashmap_put` goes on after a rehash unless there was no memory.
  abbrev pub retry :
      MapStatus × HashMap C.Key V
      → (HashMap C.Key V → MapStatus × HashMap C.Key V)
      → MapStatus × HashMap C.Key V
  retry r again = elim r.0 [ map_omem ↦ (map_omem, r.1) | _ ↦ again r.1 ]

  -- The loop doubles the table until there is a place. Without fuel there is no memory.
  unfoldable pub hashmap_put : (ℕ → Bool) → ℕ → Put C.Key V
  hashmap_put calloc zero key value m = (map_omem, m)
  hashmap_put calloc (suc fuel) key value m = elim (hashmap_hash m key) [
    | some index ↦ (map_ok, store m index key value)
    | none ↦
        retry (hashmap_rehash calloc (hashmap_put calloc fuel) m)
          (hashmap_put calloc fuel key value)
  ]

-- `hashmap_it`: `next` is one more than its index `i`, which begins at -1.
pub record MapIt (K V : Type 0) : Type 0 where
  pub map : HashMap K V
  pub next : ℕ

unfoldable pub hashmap_it_new : {K V : Type 0} → HashMap K V → MapIt K V
hashmap_it_new m = record { map = m; next = 0 }

-- The loop of `hashmap_it_next` from the index `i` on, for `n` elements: the entry, and `i`.
unfoldable pub scan : {K V : Type 0} → (ℕ → Element K V) → ℕ → ℕ → Option (K × V) × ℕ
scan elements zero i = (none, i)
scan elements (suc n) i = elim (elements i) [
  | free ↦ scan elements n (i + 1)
  | used key value ↦ (some (key, value), i)
]

unfoldable pub hashmap_it_next : {K V : Type 0} → MapIt K V → MapStatus × Option (K × V) × MapIt K V
hashmap_it_next it =
    let (entry, i) = scan it.map.elements (it.map.table_size - it.next) it.next in
    elim entry [
      | none ↦ (map_missing, none, record it { next = suc i })
      | some e ↦ (map_ok, some e, record it { next = suc i })
    ]

unfoldable pub hashmap_it_remove :
    (C : Keys) {V : Type 0} → MapIt C.Key V → MapStatus × MapIt C.Key V
hashmap_it_remove C it = elim it.next [
  | zero ↦ (map_missing, it)
  | suc i ↦
      if leb it.map.table_size i || is_free (it.map.elements i)
      then (map_missing, it)
      else (map_ok, record it { map = blank C it.map i })
]
