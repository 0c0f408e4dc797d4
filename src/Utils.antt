-- ===== src/Utils.antt =====
-- main/utils/convert.c and utils.c: bytes as hexadecimal text, and strings put together. A string is
-- the list of the codes in front of its 0.
pub mod RoundTrip
mod Tests
use esp_owl.Base.{
  Bool, List, Option, [], drop, if◌then◌else◌, length, ltb, none, not, some, take, ℕ, ◌%◌, ◌*◌,
  ◌++◌, ◌+◌, ◌-◌, ◌/◌, ◌∷◌,
}
use esp_owl.Base.Int.{negsuc, pos, ℤ}
use esp_owl.Core.{hex_byte}
use esp_owl.Cli.Trim.{space}
use esp_owl.Cli.Command.{cut_line}

-- `(char) byte`
abbrev pub byte_of : ℤ → ℕ
byte_of (pos n) = n % 256
byte_of (negsuc n) = 255 - n % 256

-- The loop over two characters at a time. `strtol` is that of the C library, to the base 16.
unfoldable pub convert_pairs : (List ℕ → ℤ) → List ℕ → List ℕ
convert_pairs strtol [] = []
convert_pairs strtol (c ∷ []) = byte_of (strtol (c ∷ [])) ∷ []
convert_pairs strtol (c ∷ d ∷ hex) = byte_of (strtol (c ∷ d ∷ [])) ∷ convert_pairs strtol hex

-- `has_memory n` is whether `malloc(n)` succeeds. Without memory the program ends.
unfoldable pub hex_to_string : (ℕ → Bool) → (List ℕ → ℤ) → List ℕ → Option (List ℕ)
hex_to_string has_memory strtol hex =
    if has_memory (length hex / 2 + 1) then some (convert_pairs strtol hex) else none

unfoldable pub hex_digits : List ℕ → List ℕ
hex_digits [] = []
hex_digits (b ∷ bytes) = hex_byte b ++ hex_digits bytes

-- `none` is NULL.
unfoldable pub bt_hex : (ℕ → Bool) → List ℕ → Option (List ℕ)
bt_hex has_memory [] = none
bt_hex has_memory (b ∷ bytes) =
    if has_memory (length (b ∷ bytes) * 2 + 1) then some (hex_digits (b ∷ bytes)) else none

abbrev pub total_length : List (List ℕ) → ℕ
total_length [] = 0
total_length (s ∷ array) = length s + total_length array

-- The loop with `strcat`.
unfoldable pub concat_strings : List (List ℕ) → List ℕ
concat_strings [] = []
concat_strings (s ∷ []) = s
concat_strings (s ∷ t ∷ array) = s ++ (space ∷ concat_strings (t ∷ array))

-- NULL, the line, or a write behind the memory of the line, after which what happens is undefined.
pub data Joined : Type 0 where
  no_memory overflows : Joined
  joined : List ℕ → Joined

-- The memory has room for the strings and the 0 behind them, but for no space between them.
unfoldable pub joined_strings : (ℕ → Bool) → List (List ℕ) → Joined
joined_strings has_memory strings =
    let line = concat_strings strings in
    let room = total_length strings + 1 in
    if not (has_memory room)
    then no_memory
    else if ltb room (length line + 1)
    then overflows
    else joined (cut_line line)

-- The strings of the array from `start` on, in front of `end`, both of which it has.
unfoldable pub concat_array : (ℕ → Bool) → List (List ℕ) → ℕ → ℕ → Joined
concat_array has_memory array start end =
    joined_strings has_memory (take (end - start) (drop start array))
