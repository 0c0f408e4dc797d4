-- ===== src/Utils/RoundTrip.antt =====
-- main/utils: what is converted is read back, and when strings are put together.
use mathlib.Core.Bool.{true≢false}
use esp_owl.Base.{
  ltb, false, take_append, ◌↔◌, ◌≤◌, All, Bool, IsByte, List, [], ap, arith, drop, length, refl,
  some, take, length-append, drop_append, true, ℕ, ◌%◌, ◌*◌, ◌++◌, ◌+◌, ◌-◌, ◌/◌, ◌<◌, ◌>>=◌, ◌∙◌,
  ◌∷◌, ◌≡◌, ◌≢◌,
}
use esp_owl.Base.Int.{pos, ℤ}
use esp_owl.Core.{hex_digit}
use esp_owl.Cli.Trim.{space}
use esp_owl.Cli.Command.{cut_line}
use esp_owl.Utils.{
  bt_hex, byte_of, Joined, concat_array, concat_strings, joined, joined_strings, overflows,
  total_length, convert_pairs, hex_digits, hex_to_string,
}

-- `strtol` reads two hexadecimal digits as their number.
abbrev pub ReadsHex : (List ℕ → ℤ) → Type 0
ReadsHex strtol =
    (a b : ℕ) → a < 16 → b < 16 → strtol (hex_digit a ∷ hex_digit b ∷ []) ≡ pos (16 * a + b)

module _ (strtol : List ℕ → ℤ) (reads : ReadsHex strtol) where
  convert-hex_digits :
      (bytes : List ℕ) → All IsByte bytes → convert_pairs strtol (hex_digits bytes) ≡ bytes
  unfolding convert_pairs hex_digits
  convert-hex_digits [] h = refl
  convert-hex_digits (b ∷ bytes) (small, h) =
      let one : byte_of (strtol (hex_digit (b / 16) ∷ hex_digit (b % 16) ∷ [])) ≡ b =
        ap byte_of (reads (b / 16) (b % 16) (omega (arith, small)) (omega arith))
        ∙ omega (arith, small) in
      rw (one, convert-hex_digits bytes h) refl

-- With memory, the hexadecimal text of some bytes is converted to these bytes.
pub hex_to_string-bt_hex :
    (strtol : List ℕ → ℤ) (has_memory : ℕ → Bool) (bytes : List ℕ)
    → ReadsHex strtol
    → ((n : ℕ) → has_memory n ≡ true)
    → bytes ≢ []
    → All IsByte bytes
    → (bt_hex has_memory bytes >>= hex_to_string has_memory strtol) ≡ some bytes
unfolding bt_hex hex_to_string
hex_to_string-bt_hex strtol has_memory [] reads memory filled small = absurd (filled refl)
hex_to_string-bt_hex strtol has_memory (b ∷ bytes) reads memory filled small =
    let xs = b ∷ bytes in
    rw
      (
        memory (length xs * 2 + 1),
        memory (length (hex_digits xs) / 2 + 1),
        convert-hex_digits strtol reads xs small,
      )
      refl

length-concat_strings :
    (s : List ℕ) (array : List (List ℕ))
    → length (concat_strings (s ∷ array)) ≡ total_length (s ∷ array) + length array
unfolding concat_strings
length-concat_strings s [] = omega arith
length-concat_strings s (t ∷ array) =
    omega
      (arith, length-append s (space ∷ concat_strings (t ∷ array)), length-concat_strings t array)

abbrev is_joined : Joined → Bool
is_joined (joined line) = true
is_joined _ = false

abbrev Joins : List (List ℕ) → Joined → Type 0
Joins [] r = r ≡ joined []
Joins (s ∷ []) r = r ≡ joined (cut_line s)
Joins (s ∷ t ∷ array) r = r ≡ overflows

not_overflows : (line : List ℕ) → joined line ≡ overflows → ⊥
not_overflows line e = absurd (true≢false (ap is_joined e))

joins :
    (has_memory : ℕ → Bool) (strings : List (List ℕ))
    → ((n : ℕ) → has_memory n ≡ true)
    → let r = joined_strings has_memory strings in
      ((r ≡ overflows) ↔ (2 ≤ length strings)) × Joins strings r
unfolding concat_strings joined_strings cut_line
joins has_memory [] memory =
    rw (memory 1) (((λ e. absurd (not_overflows _ e)), (λ h. absurd (omega (arith, h)))), refl)
joins has_memory (s ∷ []) memory =
    let fits : ltb (total_length (s ∷ []) + 1) (length s + 1) ≡ false = ground arith in
    rw (memory (total_length (s ∷ []) + 1), fits)
      (((λ e. absurd (not_overflows _ e)), (λ h. absurd (omega (arith, h)))), refl)
joins has_memory (s ∷ t ∷ array) memory =
    let line = concat_strings (s ∷ t ∷ array) in
    let long : ltb (total_length (s ∷ t ∷ array) + 1) (length line + 1) ≡ true =
      ground (arith, length-concat_strings s (t ∷ array)) in
    rw (memory (total_length (s ∷ t ∷ array) + 1), long) (((λ _. omega arith), (λ _. refl)), refl)

-- With memory, joining the strings of an array from one place up to another, which stands before its
-- end or at it, gives the empty line for no string, the string up to the end of its line for one, and
-- writes behind the memory for two or more of them, and only then.
pub concat_array_lem :
    (has_memory : ℕ → Bool) (before strings after : List (List ℕ))
    → ((n : ℕ) → has_memory n ≡ true)
    → let n = length before in
      let r = concat_array has_memory (before ++ (strings ++ after)) n (n + length strings) in
      ((r ≡ overflows) ↔ (2 ≤ length strings)) × Joins strings r
unfolding concat_array
concat_array_lem has_memory before strings after memory =
    let n = length before in
    let array = before ++ (strings ++ after) in
    let those : take (n + length strings - n) (drop n array) ≡ strings =
      ap (take (n + length strings - n)) (drop_append before (strings ++ after))
      ∙ ap (λ (k : ℕ). take k (strings ++ after)) {y = length strings} (omega arith)
      ∙ take_append strings after in
    rw those (joins has_memory strings memory)
