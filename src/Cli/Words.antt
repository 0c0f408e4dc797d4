-- ===== src/Cli/Words.antt =====
-- main/cli/command.c: the words of a line, and the line `drop dis` with the address of a node.
use mathlib.Core.List.{cons-ne-nil}
use esp_owl.Base.{
  All, Bool, List, [], ap, append-nil, append_assoc, arith, false, refl, sym, take, ℕ, ◌++◌, ◌/◌,
  ◌%◌, ◌<◌, ◌==◌, ◌∙◌, ◌∷◌, ◌≡◌, ◌≢◌,
}
use esp_owl.Ethernet.{EtherAddr, IsAddr}
use esp_owl.Core.{ether_addr_to_in6_addr, ether_addr_to_string, hex_digit}
use esp_owl.Core.MacText.{parse_mac_address-ether_addr_to_string}
use esp_owl.Cli.Trim.{space}
use esp_owl.Cli.Command.{
  codes, cut_line, end_token, get_index_of_string, handle_opendrop_command, https_request,
  index_from, is_end, main_cmd, run_command, run_tokens, tokens,
}

-- A character of a word.
abbrev pub IsLetter : ℕ → Type 0
IsLetter c = ((c == space) ≡ false) × (is_end c ≡ false)

abbrev pub IsWord : List ℕ → Type 0
IsWord w = (w ≢ []) × All IsLetter w

-- The words with one space in front of each.
abbrev spaced : List (List ℕ) → List ℕ
spaced [] = []
spaced (w ∷ ws) = space ∷ (w ++ spaced ws)

tokens_letter :
    (token : List ℕ) (c : ℕ) (str : List ℕ)
    → (c == space) ≡ false
    → tokens token (c ∷ str) ≡ tokens (token ++ (c ∷ [])) str
unfolding tokens
tokens_letter token c str e = rw (tokens, e) refl

tokens-space : (token str : List ℕ) → tokens token (space ∷ str) ≡ end_token token (tokens [] str)
unfolding tokens
tokens-space token str = refl

tokens_word :
    (token w str : List ℕ) → All IsLetter w → tokens token (w ++ str) ≡ tokens (token ++ w) str
tokens_word token [] str letters = ap (λ (t : List ℕ). tokens t str) (sym (append-nil token))
tokens_word token (c ∷ w) str ((here, _), letters) =
    tokens_letter token c (w ++ str) here
    ∙ tokens_word (token ++ (c ∷ [])) w str letters
    ∙ ap (λ (t : List ℕ). tokens t str) (append_assoc token (c ∷ []) w)

end_word : (w : List ℕ) (ts : List (List ℕ)) → w ≢ [] → end_token w ts ≡ w ∷ ts
end_word [] ts h = absurd (h refl)
end_word (c ∷ w) ts h = refl

-- The tokens of a word and spaced words are these words.
tokens-spaced :
    (w : List ℕ) (ws : List (List ℕ)) → w ≢ [] → All IsWord ws → tokens w (spaced ws) ≡ w ∷ ws
unfolding tokens
tokens-spaced w [] some_word all = end_word w [] some_word
tokens-spaced w (v ∷ ws) some_word ((v_word, letters), all) =
    tokens-space w (v ++ spaced ws)
    ∙ ap (end_token w) (tokens_word [] v (spaced ws) letters ∙ tokens-spaced v ws v_word all)
    ∙ end_word w (v ∷ ws) some_word

cut_letter : (c : ℕ) (str : List ℕ) → is_end c ≡ false → cut_line (c ∷ str) ≡ c ∷ cut_line str
unfolding cut_line
cut_letter c str e = rw (cut_line, e) refl

cut_word : (w str : List ℕ) → All IsLetter w → cut_line (w ++ str) ≡ w ++ cut_line str
cut_word [] str letters = refl
cut_word (c ∷ w) str ((_, here), letters) =
    cut_letter c (w ++ str) here ∙ ap (λ (t : List ℕ). c ∷ t) (cut_word w str letters)

cut-spaced :
    (ws : List (List ℕ)) (rest : List ℕ)
    → All IsWord ws
    → cut_line (spaced ws ++ (b'\r' ∷ rest)) ≡ spaced ws
unfolding cut_line
cut-spaced [] rest all = refl
cut-spaced (w ∷ ws) rest ((_, letters), all) =
    ap (λ (t : List ℕ). space ∷ t)
      (ap cut_line (append_assoc w (spaced ws) (b'\r' ∷ rest))
        ∙ cut_word w (spaced ws ++ (b'\r' ∷ rest)) letters
        ∙ ap (λ (t : List ℕ). w ++ t) (cut-spaced ws rest all))

-- A line of words with one space between them, up to a carriage return, runs the first word as the
-- command, on the next twenty at most.
pub main_cmd_words :
    (enabled : Bool) (garbage : EtherAddr) (command : List ℕ) (arguments : List (List ℕ))
    (rest : List ℕ)
    → IsWord command
    → All IsWord arguments
    → main_cmd enabled garbage ((command ++ spaced arguments) ++ (b'\r' ∷ rest))
      ≡ run_command enabled garbage command (take 20 arguments)
unfolding main_cmd run_tokens
main_cmd_words enabled garbage [] arguments rest (word, letters) all = absurd (word refl)
main_cmd_words enabled garbage (c ∷ w) arguments rest (word, letters) all =
    let command = c ∷ w in
    let cut : cut_line ((command ++ spaced arguments) ++ (b'\r' ∷ rest))
        ≡ command ++ spaced arguments =
      ap cut_line (append_assoc command (spaced arguments) (b'\r' ∷ rest))
      ∙ cut_word command (spaced arguments ++ (b'\r' ∷ rest)) letters
      ∙ ap (λ (t : List ℕ). command ++ t) (cut-spaced arguments rest all) in
    let split : tokens [] (command ++ spaced arguments) ≡ command ∷ arguments =
      tokens_word [] command (spaced arguments) letters
      ∙ tokens-spaced command arguments word all in
    rw (main_cmd, cut, split) refl

digit-IsLetter : (d : ℕ) → d < 16 → IsLetter (hex_digit d)
digit-IsLetter d h = (ground (arith, h), ground (arith, h))

text-IsWord : (a : EtherAddr) → IsAddr a → IsWord (ether_addr_to_string a)
unfolding ether_addr_to_string
text-IsWord a (b0, (b1, (b2, (b3, (b4, (b5, _)))))) =
    let high : (n : ℕ) → n < 256 → IsLetter (hex_digit (n / 16)) =
      λ n h. digit-IsLetter (n / 16) (omega (arith, h)) in
    let low : (n : ℕ) → IsLetter (hex_digit (n % 16)) =
      λ n. digit-IsLetter (n % 16) (omega arith) in
    let colon : IsLetter b':' = (refl, refl) in
    (
      cons-ne-nil _ _,
      (
        high a.octet0 b0,
        (
          low a.octet0,
          (
            colon,
            (
              high a.octet1 b1,
              (
                low a.octet1,
                (
                  colon,
                  (
                    high a.octet2 b2,
                    (
                      low a.octet2,
                      (
                        colon,
                        (
                          high a.octet3 b3,
                          (
                            low a.octet3,
                            (
                              colon,
                              (
                                high a.octet4 b4,
                                (low a.octet4, (colon, (high a.octet5 b5, (low a.octet5, _)))),
                              ),
                            ),
                          ),
                        ),
                      ),
                    ),
                  ),
                ),
              ),
            ),
          ),
        ),
      ),
    )

-- The line `drop dis` with the text of the address of a node, up to a carriage return, makes a
-- request to the IPv6 address of that node.
pub main_cmd-drop_dis :
    (enabled : Bool) (garbage a : EtherAddr) (rest : List ℕ)
    → IsAddr a
    → main_cmd enabled garbage (codes "drop dis " ++ (ether_addr_to_string a ++ (b'\r' ∷ rest)))
      ≡ https_request (ether_addr_to_in6_addr a)
unfolding run_command get_index_of_string index_from handle_opendrop_command ether_addr_to_string
main_cmd-drop_dis enabled garbage a rest bytes =
    let text = ether_addr_to_string a in
    let letter : IsLetter b'd' = (refl, refl) in
    main_cmd_words enabled garbage (codes "drop") (codes "dis" ∷ text ∷ []) rest
      (cons-ne-nil _ _, (letter, ((refl, refl), ((refl, refl), ((refl, refl), _)))))
      ((cons-ne-nil _ _, (letter, ((refl, refl), ((refl, refl), _)))), (text-IsWord a bytes, _))
    ∙ rw (parse_mac_address-ether_addr_to_string a bytes) refl
