-- ===== src/HashMap/Write.antt =====
-- main/owl/hashmap.c: what storing, blanking and writing an entry do to the map as a function of
-- the key.
use esp_owl.Base.{
  Bool-cases, Option-cases, ap, arith, false, inl, inr, leb, none, put_at_cases, put_at_self, refl,
  some, sym, true, ℕ, ◌%◌, ◌+◌, ◌-◌, ◌/◌, ◌<◌, ◌∙◌, ◌≡◌, ◌≢◌,
}
use esp_owl.HashMap.{
  HashMap, Keys, blank, free, hashmap_hash, hashmap_hash_int, holds, index_of, is_free,
  max_chain_length, store, used, write_through,
}
use esp_owl.HashMap.Probe.{free-holds, holds_other, probe_hash-place, used-holds}
use esp_owl.HashMap.Valid.{
  IsValid, index_of-written, occupied, occupied_le_count, written, written-IsValid,
}
use esp_owl.HashMap.Lookup.{lookup, lookup-eq-some, lookup-written, lookup_at}
use mathlib.Core.Bool.{true≢false}
use mathlib.Core.Option.{none-ne-some, some-injective}

module _ (C : Keys) {V : Type 0} {m : HashMap C.Key V} (ok : IsValid C m) where
  -- Storing an entry for a key that the map does not have, at the place found for it.
  module _ (key : C.Key) (v : V) (i : ℕ) (missing : index_of C m key ≡ none)
      (place : hashmap_hash C m key ≡ some i) where
    place_lem :
        (i < m.table_size)
        × (is_free (m.elements i) ≡ true)
        × (index_of C (store C m i key v) key ≡ some i)
    unfolding index_of hashmap_hash hashmap_hash_int store
    place_lem = elim (Bool-cases (leb (m.table_size / 2) m.size)) [
      | inl full ↦ ground (arith, full, place)
      | inr room ↦
          probe_hash-place C m.elements m.table_size key max_chain_length
            (C.hash key % m.table_size) i v (omega (arith, ok.nonempty)) missing
            (ground (arith, room, place))
    ]

    pub store-IsValid : IsValid C (store C m i key v)
    unfolding store
    store-IsValid =
        let (bound, here, self) = place_lem in
        written-IsValid C ok (m.size + 1) i (used key v) bound
          (λ b j e apart.
            holds_other C key b v
              (λ (kb : key ≡ b). none-ne-some _ (sym missing ∙ ap (index_of C m) kb ∙ e)))
          (λ k w e.
            let same_key = C.same-eq key k (used-holds C (used key v) e) in
            ap (index_of C (store C m i key v)) (sym same_key) ∙ self)
          (omega (arith, ok.counted))

    pub lookup-store : lookup C (store C m i key v) key ≡ some v
    unfolding store
    lookup-store =
        let (bound, here, self) = place_lem in
        lookup_at C (store C m i key v) key key i v self (put_at_self m.elements i (used key v))

    pub lookup-store_other : (b : C.Key) → key ≢ b → lookup C (store C m i key v) b ≡ lookup C m b
    unfolding store
    lookup-store_other b apart =
        let (bound, here, self) = place_lem in
        lookup-written C ok (m.size + 1) i (used key v) b (holds_other C key b v apart)
          (free-holds C (m.elements i) b here)

  -- Blanking the entry of a key.
  module _ (key : C.Key) (v : V) (i : ℕ) (bound : i < m.table_size) (e : index_of C m key ≡ some i)
      (here : m.elements i ≡ used key v) where
    old_other : (b : C.Key) → key ≢ b → holds C (m.elements i) b ≡ false
    old_other b apart = rw here (holds_other C key b v apart)

    pub blank_size : (blank C m i).size + 1 ≡ m.size
    unfolding blank
    blank_size =
        let one = ap occupied here in
        omega (arith, one, occupied_le_count m.elements m.table_size i bound, ok.counted)

    pub blank-IsValid : IsValid C (blank C m i)
    unfolding blank
    blank-IsValid =
        written-IsValid C ok (m.size - 1) i free bound (λ b j f apart. refl)
          (λ k w f. absurd (true≢false (ap is_free f)))
          (omega (arith, ok.counted, ap occupied here))

    pub lookup-blank_other : (b : C.Key) → key ≢ b → lookup C (blank C m i) b ≡ lookup C m b
    unfolding blank
    lookup-blank_other b apart = lookup-written C ok (m.size - 1) i free b refl (old_other b apart)

    pub lookup-blank : lookup C (blank C m i) key ≡ none
    unfolding blank
    lookup-blank = elim (Option-cases (lookup C (blank C m i) key)) [
      | inl gone ↦ gone
      | inr (w, still) ↦
          let (j, j_bound, je, there) = lookup-eq-some C blank-IsValid key w still in
          elim (put_at_cases m.elements i j free) [
            | inl (_, at) ↦ absurd (true≢false (ap is_free (sym at ∙ there)))
            | inr (apart, at) ↦
                absurd
                  (apart (some-injective j i (sym (ok.found j key w j_bound (sym at ∙ there)) ∙ e)))
          ]
    ]

    -- Writing through the pointer to the data of the key.
    pub write_through-at : (w : V) → write_through C m key w ≡ written m m.size i (used key w)
    unfolding write_through
    write_through-at w = rw (write_through, e) refl

    self_place : (w : V) → index_of C (written m m.size i (used key w)) key ≡ some i
    self_place w =
        index_of-written C ok m.size i (used key w) key
          (C.same_refl key ∙ sym (used-holds C (m.elements i) here))
        ∙ e

    pub written_through-IsValid : (w : V) → IsValid C (written m m.size i (used key w))
    written_through-IsValid w =
        written-IsValid C ok m.size i (used key w) bound
          (λ b j f apart.
            holds_other C key b w (λ (kb : key ≡ b).
              apart (some-injective j i (sym f ∙ ap (index_of C m) (sym kb) ∙ e))))
          (λ k u f.
            let same_key = C.same-eq key k (used-holds C (used key w) f) in
            ap (index_of C (written m m.size i (used key w))) (sym same_key) ∙ self_place w)
          (omega (arith, ok.counted, ap occupied here))

    pub lookup-written_through : (w : V) → lookup C (written m m.size i (used key w)) key ≡ some w
    lookup-written_through w =
        lookup_at C (written m m.size i (used key w)) key key i w (self_place w)
          (put_at_self m.elements i (used key w))

    pub lookup-written_through_other :
        (w : V) (b : C.Key) → key ≢ b → lookup C (written m m.size i (used key w)) b ≡ lookup C m b
    lookup-written_through_other w b apart =
        lookup-written C ok m.size i (used key w) b (holds_other C key b w apart)
          (old_other b apart)
