-- ===== src/Cli/Trim.antt =====
-- main/cli/uart.c: `trim_command`, which deletes the last word of a line.
use esp_owl.Base.{
  All, List, Option, [], ap, ap₂, arith, false, get_or, length, length-append, length-replicate,
  none, refl, replicate, set, some, suc, take, true, zero, ℕ, ◌++◌, ◌+◌, ◌<◌, ◌==◌, ◌∙◌, ◌∷◌, ◌≡◌,
  ◌⊎◌, inl, inr, sym, append_assoc,
}

abbrev pub space : ℕ
space = b' '

-- `while (command[n - 1] == ' ') n--`. The source goes on below 0, at the byte in front of the array.
unfoldable pub skip_spaces : List ℕ → ℕ → ℕ
skip_spaces command zero = zero
skip_spaces command (suc n) = elim (get_or command n 0 == space) [
  | true ↦ skip_spaces command n
  | false ↦ suc n
]

-- The loop over `i` from `n - 1` down, up to the first space.
unfoldable pub find_space : List ℕ → ℕ → Option ℕ
find_space command zero = none
find_space command (suc i) = elim (get_or command i 0 == space) [
  | true ↦ some i
  | false ↦ find_space command i
]

-- The array and the new length.
unfoldable pub trim_command : List ℕ → ℕ → List ℕ × ℕ
trim_command command command_len = elim (find_space command (skip_spaces command command_len)) [
  | none ↦ (command, 0)
  | some i ↦ let first = skip_spaces command i in (set command first space, first + 1)
]

abbrev pub NoSpace : ℕ → Type 0
NoSpace c = (c == space) ≡ false

-- A text that is empty or does not end in a space.
abbrev pub EndsWell : List ℕ → Type 0
EndsWell w = (w ≡ []) ⊎ ((q : List ℕ) × (c : ℕ) × (w ≡ q ++ (c ∷ [])) × NoSpace c)

get_or-append : (p q : List ℕ) (i : ℕ) → get_or (p ++ q) (length p + i) 0 ≡ get_or q i 0
get_or-append [] q i = ap (λ (k : ℕ). get_or q k 0) {x = 0 + i} (omega arith)
get_or-append (x ∷ p) q i =
    ap (λ (k : ℕ). get_or (x ∷ (p ++ q)) k 0) {x = suc (length p) + i} {y = suc (length p + i)}
      (omega arith)
    ∙ get_or-append p q i

get_or-replicate : (b i c : ℕ) (r : List ℕ) → i < b → get_or (replicate b c ++ r) i 0 ≡ c
get_or-replicate zero i c r h = absurd (omega (arith, h))
get_or-replicate (suc b) zero c r h = refl
get_or-replicate (suc b) (suc i) c r h = get_or-replicate b i c r (omega (arith, h))

skip_yes : (s : List ℕ) (n : ℕ) → get_or s n 0 ≡ space → skip_spaces s (suc n) ≡ skip_spaces s n
unfolding skip_spaces
skip_yes s n e = rw (skip_spaces, e) refl

skip_no : (s : List ℕ) (n : ℕ) → NoSpace (get_or s n 0) → skip_spaces s (suc n) ≡ suc n
unfolding skip_spaces
skip_no s n e = rw (skip_spaces, e) refl

find_yes : (s : List ℕ) (n : ℕ) → get_or s n 0 ≡ space → find_space s (suc n) ≡ some n
unfolding find_space
find_yes s n e = rw (find_space, e) refl

find_no : (s : List ℕ) (n : ℕ) → NoSpace (get_or s n 0) → find_space s (suc n) ≡ find_space s n
unfolding find_space
find_no s n e = rw (find_space, e) refl

-- Nothing is skipped at the end of a text that ends well.
skip_stays : (p r : List ℕ) → EndsWell p → skip_spaces (p ++ r) (length p) ≡ length p
unfolding skip_spaces
skip_stays p r (inl e) = rw e refl
skip_stays p r (inr (q, c, e, letter)) =
    let total : length p ≡ suc (length q) = ap length e ∙ omega (arith, length-append q (c ∷ [])) in
    let here : get_or (p ++ r) (length q) 0 ≡ c =
      ap (λ (t : List ℕ). get_or (t ++ r) (length q) 0) e
      ∙ ap (λ (t : List ℕ). get_or t (length q) 0) (append_assoc q (c ∷ []) r)
      ∙ ap (λ (k : ℕ). get_or (q ++ (c ∷ r)) k 0) {y = length q + 0} (omega arith)
      ∙ get_or-append q (c ∷ r) 0 in
    rw total (skip_no (p ++ r) (length q) (ap (λ (x : ℕ). x == space) here ∙ letter))

-- The spaces behind such a text are skipped.
skip_run :
    (p r : List ℕ) (b n : ℕ)
    → EndsWell p
    → n < suc b
    → skip_spaces (p ++ (replicate b space ++ r)) (length p + n) ≡ length p
skip_run p r b zero well h =
    ap (skip_spaces (p ++ (replicate b space ++ r))) {y = length p} (omega arith)
    ∙ skip_stays p (replicate b space ++ r) well
skip_run p r b (suc n) well h =
    let s = p ++ (replicate b space ++ r) in
    ap (skip_spaces s) {y = suc (length p + n)} (omega arith)
    ∙ skip_yes s (length p + n) (
        get_or-append p (replicate b space ++ r) n
        ∙ get_or-replicate b n space r (omega (arith, h)))
    ∙ skip_run p r b n well (omega (arith, h))

-- The first space in front of a word is found.
find_word :
    (u word r : List ℕ) (n : ℕ)
    → ((i : ℕ) → i < length word → NoSpace (get_or (word ++ r) i 0))
    → n < suc (length word)
    → find_space (u ++ (space ∷ (word ++ r))) (length u + suc n) ≡ some (length u)
find_word u word r zero letters h =
    let s = u ++ (space ∷ (word ++ r)) in
    ap (find_space s) {y = suc (length u)} (omega arith)
    ∙ find_yes s (length u) (
        ap (λ (k : ℕ). get_or s k 0) {y = length u + 0} (omega arith)
        ∙ get_or-append u (space ∷ (word ++ r)) 0)
find_word u word r (suc n) letters h =
    let s = u ++ (space ∷ (word ++ r)) in
    let here : get_or s (length u + suc n) 0 ≡ get_or (word ++ r) n 0 =
      get_or-append u (space ∷ (word ++ r)) (suc n) in
    ap (find_space s) {y = suc (length u + suc n)} (omega arith)
    ∙ find_no s (length u + suc n) (ap (λ (x : ℕ). x == space) here ∙ letters n (omega (arith, h)))
    ∙ find_word u word r n letters (omega (arith, h))

letters_of :
    (word r : List ℕ)
    → All NoSpace word
    → (i : ℕ) → i < length word
    → NoSpace (get_or (word ++ r) i 0)
letters_of [] r all i h = absurd (omega (arith, h))
letters_of (x ∷ word) r (here, all) zero h = here
letters_of (x ∷ word) r (here, all) (suc i) h = letters_of word r all i (omega (arith, h))

replicate_snoc : (a c : ℕ) (r : List ℕ) → replicate (suc a) c ++ r ≡ replicate a c ++ (c ∷ r)
replicate_snoc zero c r = refl
replicate_snoc (suc a) c r = ap (λ (t : List ℕ). c ∷ t) (replicate_snoc a c r)

take-set_end :
    (w r : List ℕ) (x v : ℕ) → take (length w + 1) (set (w ++ (x ∷ r)) (length w) v) ≡ w ++ (v ∷ [])
take-set_end [] r x v = refl
take-set_end (y ∷ w) r x v =
    ap (λ (k : ℕ). take k (y ∷ set (w ++ (x ∷ r)) (length w) v)) {y = suc (length w + 1)}
      (omega arith)
    ∙ ap (λ (t : List ℕ). y ∷ t) (take-set_end w r x v)

All-snoc : (word : List ℕ) (c : ℕ) → All NoSpace word → NoSpace c → All NoSpace (word ++ (c ∷ []))
All-snoc [] c all h = (h, _)
All-snoc (x ∷ word) c (here, all) h = (here, All-snoc word c all h)

trim_at :
    (s : List ℕ) (n m i : ℕ)
    → skip_spaces s n ≡ m
    → find_space s m ≡ some i
    → trim_command s n ≡ (set s (skip_spaces s i) space, skip_spaces s i + 1)
unfolding trim_command
trim_at s n m i first second = rw (trim_command, first, second) refl

-- Of a line that ends in a word, behind at least one space, with any number of spaces behind it,
-- the word and the spaces around it are deleted, but for one space behind what is left.
pub trim_command_lem :
    (w word rest : List ℕ) (c a b : ℕ)
    → EndsWell w
    → All NoSpace word
    → NoSpace c
    → let line = w ++ (replicate (suc a) space ++ (word ++ (c ∷ (replicate b space ++ rest)))) in
      let (command, command_len) = trim_command line (length w + (suc a + (length word + suc b))) in
      take command_len command ≡ w ++ (space ∷ [])
trim_command_lem w word rest c a b well letters letter =
    let tail = replicate b space ++ rest in
    let line = w ++ (replicate (suc a) space ++ (word ++ (c ∷ tail))) in
    let p = (w ++ (replicate (suc a) space ++ word)) ++ (c ∷ []) in
    let u = w ++ replicate a space in
    let full = word ++ (c ∷ []) in
    let by_end : line ≡ p ++ tail = simp append_assoc refl in
    let snoc : line ≡ w ++ (replicate a space ++ (space ∷ (word ++ (c ∷ tail)))) =
      ap (λ (t : List ℕ). w ++ t) (replicate_snoc a space (word ++ (c ∷ tail))) in
    let by_space : line ≡ u ++ (space ∷ (full ++ tail)) =
      snoc
      ∙ sym (append_assoc w (replicate a space) (space ∷ (word ++ (c ∷ tail))))
      ∙ ap (λ (t : List ℕ). u ++ (space ∷ t)) (sym (append_assoc word (c ∷ []) tail)) in
    let total : length full ≡ length word + 1 = omega (arith, length-append word (c ∷ [])) in
    let u_len : length u ≡ length w + a =
      omega (arith, length-append w (replicate a space), length-replicate a space) in
    let p_len : length p ≡ length u + suc (length full) = omega (
      arith,
      length-append (w ++ (replicate (suc a) space ++ word)) (c ∷ []),
      length-append w (replicate (suc a) space ++ word),
      length-append (replicate (suc a) space) word,
      length-replicate (suc a) space,
      u_len,
      total,
    ) in
    let n = length w + (suc a + (length word + suc b)) in
    let p_well : EndsWell p = inr (w ++ (replicate (suc a) space ++ word), c, refl, letter) in
    let first : skip_spaces line n ≡ length p =
      let count : n ≡ length p + b = omega (arith, p_len, u_len, total) in
      ap₂ skip_spaces by_end count ∙ skip_run p rest b b p_well (omega arith) in
    let second : find_space line (length p) ≡ some (length u) =
      ap₂ find_space by_space p_len
      ∙ find_word u full tail (length full) (letters_of full tail (All-snoc word c letters letter))
          (omega arith) in
    let third : skip_spaces line (length u) ≡ length w =
      ap₂ skip_spaces snoc u_len
      ∙ skip_run w (space ∷ (word ++ (c ∷ tail))) a a well (omega arith) in
    ap (λ (r : List ℕ × ℕ). take r.1 r.0) (trim_at line n (length p) (length u) first second)
    ∙ ap (λ (j : ℕ). take (j + 1) (set line j space)) third
    ∙ take-set_end w (replicate a space ++ (word ++ (c ∷ tail))) space space
