-- ===== src/Cli/Console/Edit.antt =====
-- main/cli/uart.c: the editor on the text of the line.
use esp_owl.Base.{
  Bool, Bool-cases, length-append, List, [], ap, arith, drop, false, not, if◌then◌else◌, inl, inr,
  leb, length, length-replicate, length-set, length-set_all, length-take, ltb, refl, set, set_all,
  suc, sym, take, take-drop-set_all, take-set, take-take, true, zero, ℕ, ◌%◌, ◌++◌, ◌+◌, ◌-◌, ◌<◌,
  ◌==◌, ◌∙◌, ◌∷◌, ◌≡◌, ◌≤◌,
}
use esp_owl.Base.Overwrite.{set_past, take-drop_append}
use esp_owl.Ethernet.{EtherAddr}
use esp_owl.RingBuffer.History
use esp_owl.Cli.Command.{cut_line, is_end, main_cmd, run_line}
use esp_owl.Cli.Console.{
  Console, Reply, backspace, clear, corrupts, has_return, restarts, runs, type_bytes, waits,
}

-- The array has its size, the length is one of a byte, and the history is in good order.
pub record IsValid (c : Console) : Type 0 where
  pub size : length c.command ≡ 1024
  pub byte : c.command_len < 256
  pub history : History.IsValid c.history

abbrev pub text : Console → List ℕ
text c = take c.command_len c.command

set_all-cons :
    (x : ℕ) (xs : List ℕ) (i : ℕ) (vs : List ℕ) → set_all (x ∷ xs) (suc i) vs ≡ x ∷ set_all xs i vs
set_all-cons x xs i [] = refl
set_all-cons x xs i (v ∷ vs) = ap (λ (t : List ℕ). set t (suc i) v) (set_all-cons x xs (suc i) vs)

take-set_all_end :
    (n : ℕ) (xs vs : List ℕ)
    → n + length vs ≤ length xs
    → take (n + length vs) (set_all xs n vs) ≡ take n xs ++ vs
take-set_all_end zero xs vs h =
    ap (λ (k : ℕ). take k (set_all xs 0 vs)) {y = length vs} (omega arith)
    ∙ take-drop-set_all xs 0 vs h
take-set_all_end (suc n) [] vs h = absurd (omega (arith, h))
take-set_all_end (suc n) (x ∷ xs) vs h =
    ap (λ (t : List ℕ). take (suc n + length vs) t) (set_all-cons x xs n vs)
    ∙ ap (λ (k : ℕ). take k (x ∷ set_all xs n vs)) {y = suc (n + length vs)} (omega arith)
    ∙ ap (λ (t : List ℕ). x ∷ t) (take-set_all_end n xs vs (omega (arith, h)))

cut_letter : (c : ℕ) (str : List ℕ) → is_end c ≡ false → cut_line (c ∷ str) ≡ c ∷ cut_line str
unfolding cut_line
cut_letter c str e = rw (cut_line, e) refl

cut_end : (c : ℕ) (str : List ℕ) → is_end c ≡ true → cut_line (c ∷ str) ≡ []
unfolding cut_line
cut_end c str e = rw (cut_line, e) refl

-- Nothing behind a carriage return belongs to the line.
cut_return : (p rest : List ℕ) → has_return p ≡ true → cut_line (p ++ rest) ≡ cut_line p
cut_return [] rest h = absurd (ground (arith, h))
cut_return (c ∷ p) rest h = elim (Bool-cases (is_end c)) [
  | inl e ↦ cut_end c (p ++ rest) e ∙ sym (cut_end c p e)
  | inr e ↦
      let later : has_return p ≡ true = ground (arith, e, h) in
      cut_letter c (p ++ rest) e
      ∙ ap (λ (t : List ℕ). c ∷ t) (cut_return p rest later)
      ∙ sym (cut_letter c p e)
]

has_return-append : (p q : List ℕ) → has_return q ≡ true → has_return (p ++ q) ≡ true
has_return-append [] q h = h
has_return-append (c ∷ p) q h = ground (arith, has_return-append p q h)

length-text : (c : Console) → IsValid c → length (text c) ≡ c.command_len
length-text c v = omega (arith, length-take c.command_len c.command, v.size, v.byte)

abbrev pub enter : (ℕ → ℕ) → List ℕ → Bool → List ℕ × Reply
enter usable line ends =
    if not ends
    then (line, waits)
    else if leb (usable (length line)) (length line)
    then (line, corrupts)
    else ([], runs line)

-- The line after an input, and what the node does with it. A line of `n` bytes can be kept only in
-- a block of memory in which more than `n` bytes may be written.
abbrev pub edit : (ℕ → ℕ) → List ℕ → List ℕ → List ℕ × Reply
edit usable line [] = (line, waits)
edit usable line (key ∷ bytes) =
    if key == 3
    then ([], waits)
    else if key == 18
    then ([], restarts)
    else if key == 127
    then (take (length line - 1) line, waits)
    else enter usable (line ++ (key ∷ bytes)) (has_return (key ∷ bytes))

-- Two replies that make the node do the same.
abbrev pub Matches : Reply → Reply → Type 0
Matches waits waits = Unit
Matches restarts restarts = Unit
Matches corrupts corrupts = Unit
Matches (runs s) (runs t) =
    (enabled : Bool) (garbage : EtherAddr) → main_cmd enabled garbage s ≡ main_cmd enabled garbage t
Matches _ _ = ⊥

abbrev pub Agrees : Console × Reply → List ℕ × Reply → Type 0
Agrees (c, reply) (line, expected) = IsValid c × (text c ≡ line) × Matches reply expected

pub clear-Agrees :
    (c : Console) (r e : Reply) → IsValid c → Matches r e → Agrees (clear c, r) ([], e)
unfolding clear
clear-Agrees c r e v m = (
  record { size = length-replicate {A = ℕ} 1024 0; byte = omega arith; history = v.history },
  refl,
  m,
)

pub backspace-Agrees :
    (c : Console)
    → IsValid c
    → Agrees (backspace c, waits) (take (length (text c) - 1) (text c), waits)
unfolding backspace
backspace-Agrees c v = elim (Bool-cases (ltb 0 c.command_len)) [
  | inl some_text ↦
      let n = c.command_len - 1 in
      let cut : take n (set c.command n 0) ≡ take (length (text c) - 1) (text c) =
        take-set n c.command n 0
        ∙ set_past (take n c.command) n 0 (omega (arith, length-take n c.command))
        ∙ sym (take-take n c.command_len c.command (omega arith))
        ∙ ap (λ (k : ℕ). take k (text c)) {x = n} (omega (arith, length-text c v)) in
      rw some_text (
        record {
          size = length-set c.command n 0 ∙ v.size;
          byte = omega (arith, v.byte);
          history = v.history;
        },
        cut,
        tt,
      )
  | inr none_left ↦
      let zero_len : c.command_len ≡ 0 = ground (arith, none_left) in
      let gone : length (text c) - 1 ≡ 0 = omega (arith, length-text c v, zero_len) in
      let same : text c ≡ take (length (text c) - 1) (text c) =
        ap (λ (k : ℕ). take k c.command) zero_len ∙ ap (λ (k : ℕ). take k (text c)) (sym gone) in
      rw none_left (v, same, tt)
]

main_cut :
    (enabled : Bool) (garbage : EtherAddr) (s t : List ℕ)
    → cut_line s ≡ cut_line t
    → main_cmd enabled garbage s ≡ main_cmd enabled garbage t
unfolding main_cmd
main_cut enabled garbage s t e = ap (run_line enabled garbage) e

pub type_bytes-Agrees :
    (usable : ℕ → ℕ) (c : Console) (bytes : List ℕ)
    → IsValid c
    → length (text c) + length bytes < 256
    → Agrees (type_bytes usable c bytes) (enter usable (text c ++ bytes) (has_return bytes))
unfolding type_bytes
type_bytes-Agrees usable c bytes v room =
    let n = length-text c v in
    let command = set_all c.command c.command_len bytes in
    let len' = (c.command_len + length bytes) % 256 in
    let len : (c.command_len + length bytes) % 256 ≡ c.command_len + length bytes =
      omega (arith, room, n) in
    let size : length command ≡ 1024 = length-set_all c.command c.command_len bytes ∙ v.size in
    let seen : take (c.command_len + length bytes) command ≡ text c ++ bytes =
      take-set_all_end c.command_len c.command bytes (omega (arith, room, n, v.size)) in
    let shown : take ((c.command_len + length bytes) % 256) command ≡ text c ++ bytes =
      ap (λ (k : ℕ). take k command) len ∙ seen in
    let room' : ltb (length c.command) (c.command_len + length bytes) ≡ false =
      ground (arith, room, n, v.size) in
    elim (Bool-cases (has_return bytes)) [
      | inl e ↦
          let history =
            (History.history-put c.history (take ((c.command_len + length bytes) % 256) command)
              v.history).0 in
          let split : command ≡ (text c ++ bytes) ++ drop (c.command_len + length bytes) command =
            sym (take-drop_append (c.command_len + length bytes) command)
            ∙ ap (λ (t : List ℕ). t ++ drop (c.command_len + length bytes) command) seen in
          let same : cut_line command ≡ cut_line (text c ++ bytes) =
            ap cut_line split
            ∙ cut_return (text c ++ bytes) (drop (c.command_len + length bytes) command)
                (has_return-append (text c) bytes e) in
          let same_size : leb (usable (length (text c ++ bytes))) (length (text c ++ bytes))
              ≡ leb (usable len') len' =
            ap (λ (k : ℕ). leb (usable k) k)
              (omega (arith, length-append (text c) bytes, n, len)) in
          elim (Bool-cases (leb (usable len') len')) [
            | inl over ↦
                rw (room', e, same_size, over)
                  (record { size = size; byte = omega arith; history = v.history }, shown, tt)
            | inr inside ↦
                rw (room', e, same_size, inside)
                  (clear-Agrees _ (runs command) (runs (text c ++ bytes))
                    (record { size = size; byte = omega arith; history = history })
                    (λ enabled garbage. main_cut enabled garbage command (text c ++ bytes) same))
          ]
      | inr e ↦
          rw (room', e) (record { size = size; byte = omega arith; history = v.history }, shown, tt)
    ]
