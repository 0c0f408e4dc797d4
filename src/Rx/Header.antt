-- ===== src/Rx/Header.antt =====
-- main/owl/rx.c: the check of the header of an action frame.
use esp_owl.Base.{
  Bool, List, Option, Ordering, [], false, if◌then◌else◌, memcmp, none, some, true, ℕ, ◌&&◌, ◌==◌,
  ◌>>=◌, ◌||◌, ◌∷◌,
}
use esp_owl.Base.Int.{pos}
use esp_owl.Wire.{Buf, read_bytes}
use esp_owl.Frame.{
  action_hdr_len, action_mif, action_psf, awdl_oui, awdl_type, awdl_version_compat,
  ieee80211_vendor_specific,
}

-- `!memcmp(xs, ys, sizeof(xs))`
abbrev pub memcmp_eq : List ℕ → List ℕ → Bool
memcmp_eq xs ys = elim (memcmp xs ys) [ Ordering.eq ↦ true | _ ↦ false ]

-- The test of the fields of `struct awdl_action`, and its subtype.
unfoldable pub action_subtype : List ℕ → Option ℕ
action_subtype (category ∷ o0 ∷ o1 ∷ o2 ∷ type ∷ version ∷ subtype ∷ _) =
    if category == ieee80211_vendor_specific
      && (memcmp_eq (o0 ∷ o1 ∷ o2 ∷ []) awdl_oui
          && (type == awdl_type
              && (version == awdl_version_compat
                  && (subtype == action_psf || subtype == action_mif))))
    then some subtype
    else none
action_subtype _ = none

-- `none` is the result -1.
unfoldable pub awdl_parse_action_hdr : Buf → Option ℕ
awdl_parse_action_hdr frame = do af ← read_bytes frame (pos 0) action_hdr_len; action_subtype af
