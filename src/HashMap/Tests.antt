-- ===== src/HashMap/Tests.antt =====
-- main/owl/hashmap.c: a table of four elements whose keys are numbers that are their own hash.
use esp_owl.Base.{
  ==_iff, ==_refl, Bool, arith, false, leb, leb→le, none, put_at, refl, some, subst, true, ℕ, ◌+◌,
  ◌==◌, ◌≡◌, ◌≢◌, ◌⊎◌,
}
use esp_owl.HashMap.{
  HashMap, Keys, MapStatus, free, hashmap_get, hashmap_hash, hashmap_hash_int, hashmap_length,
  hashmap_put, hashmap_rehash, index_of, map_missing, map_ok, probe_get, probe_hash, reinsert,
  store, used,
}
use esp_owl.HashMap.Valid.{IsValid}
use esp_owl.HashMap.Move.{empty, empty-IsValid}
use esp_owl.HashMap.Laws.{hashmap_get-put, hashmap_get-remove}
use esp_owl.HashMap.Fuel.{hashmap_put_enough}

abbrev numbers : Keys
numbers = record {
  Key = ℕ;
  hash = λ n. n;
  same = λ a b. a == b;
  same_refl = ==_refl;
  same-eq = λ a b e. (==_iff a b).0 e;
}

abbrev memory : ℕ → Bool
memory n = leb n 64

abbrev four : HashMap ℕ ℕ
four = empty numbers 4

four-IsValid : IsValid numbers four
four-IsValid = empty-IsValid numbers 4 (omega arith)

abbrev one : HashMap ℕ ℕ
one = record { table_size = 4; size = 1; elements = put_at (λ _. free) 1 (used 5 50) }

put_five : hashmap_put numbers memory 3 5 50 four ≡ (map_ok, one)
unfolding hashmap_put hashmap_hash probe_hash hashmap_hash_int store
put_five = refl

four_misses : (hashmap_get numbers four 5 false).1 ≡ none
unfolding hashmap_get index_of probe_get hashmap_hash_int
four_misses = refl

one-IsValid : IsValid numbers one
one-IsValid =
    subst (λ (r : MapStatus × HashMap ℕ ℕ). IsValid numbers r.1) put_five
      (hashmap_get-put numbers memory 3 5 50 four four-IsValid four_misses).0

-- The third entry needs a table of eight elements, in which the others are moved.
abbrev three : MapStatus × HashMap ℕ ℕ
unfolding hashmap_put
three = hashmap_put numbers memory 3 9 90 (hashmap_put numbers memory 3 2 20 one).1

table_doubles :
    (three.0 ≡ map_ok)
    × (three.1.table_size ≡ 8)
    × (hashmap_length three.1 ≡ 3)
    × ((hashmap_get numbers three.1 5 false).1 ≡ some 50)
    × ((hashmap_get numbers three.1 2 false).1 ≡ some 20)
    × ((hashmap_get numbers three.1 9 false).1 ≡ some 90)
unfolding three hashmap_put hashmap_hash probe_hash hashmap_hash_int store hashmap_rehash reinsert
    hashmap_length hashmap_get index_of probe_get
table_doubles = (refl, refl, refl, refl, refl, refl)

abbrev two : MapStatus × HashMap ℕ ℕ
unfolding hashmap_put
two = hashmap_put numbers memory 3 2 20 one

hashmap_get-remove_example :
    let (status, value, m') = hashmap_get numbers one 5 true in
    (status ≡ (hashmap_get numbers one 5 false).0)
    × (value ≡ (hashmap_get numbers one 5 false).1)
    × IsValid numbers m'
    × ((hashmap_get numbers m' 5 false).1 ≡ none)
    × ((b : ℕ) → 5 ≢ b → (hashmap_get numbers m' b false).1 ≡ (hashmap_get numbers one b false).1)
    × (((status ≡ map_missing) × (hashmap_length m' ≡ hashmap_length one))
        ⊎ ((status ≡ map_ok) × (hashmap_length m' + 1 ≡ hashmap_length one)))
hashmap_get-remove_example = hashmap_get-remove numbers 5 one one-IsValid

hashmap_put_enough_example :
    hashmap_put numbers memory 6 7 70 four ≡ hashmap_put numbers memory 11 7 70 four
hashmap_put_enough_example =
    hashmap_put_enough numbers memory 64 5 10 7 70 four (λ n given. leb→le n 64 given) (omega arith)
      (omega arith)
