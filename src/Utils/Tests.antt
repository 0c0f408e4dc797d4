-- ===== src/Utils/Tests.antt =====
-- main/utils: some bytes, and the end of an array of words.
use mathlib.Core.List.{cons-ne-nil}
use esp_owl.Base.{◌↔◌, ◌≤◌, List, [], arith, get_or, refl, some, true, ℕ, ◌*◌, ◌+◌, ◌>>=◌, ◌∷◌, ◌≡◌}
use esp_owl.Base.Int.{pos, ℤ}
use esp_owl.Core.{xdigit_value}
use esp_owl.Core.MacText.{digit_value}
use esp_owl.Cli.Command.{codes}
use esp_owl.Utils.{bt_hex, concat_array, hex_to_string, overflows}
use esp_owl.Utils.RoundTrip.{ReadsHex, concat_array_lem, hex_to_string-bt_hex}

-- A function that is right on two digits.
abbrev two_digits : List ℕ → ℤ
two_digits text = pos (16 * xdigit_value (get_or text 0 0) + xdigit_value (get_or text 1 0))

reads : ReadsHex two_digits
reads a b ha hb = cc (digit_value a ha, digit_value b hb)

hex_to_string-bt_hex_example :
    (bt_hex (λ _. true) (202 ∷ 0 ∷ 7 ∷ []) >>= hex_to_string (λ _. true) two_digits)
    ≡ some (202 ∷ 0 ∷ 7 ∷ [])
hex_to_string-bt_hex_example =
    hex_to_string-bt_hex two_digits (λ _. true) (202 ∷ 0 ∷ 7 ∷ []) reads (λ _. refl)
      (cons-ne-nil _ _) (omega arith, (omega arith, (omega arith, tt)))

concat_array_lem_example :
    let r = concat_array (λ _. true) (codes "mdns" ∷ codes "ab" ∷ codes "c" ∷ []) 1 3 in
    ((r ≡ overflows) ↔ (2 ≤ 2)) × (r ≡ overflows)
concat_array_lem_example =
    concat_array_lem (λ _. true) (codes "mdns" ∷ []) (codes "ab" ∷ codes "c" ∷ []) [] (λ _. refl)
