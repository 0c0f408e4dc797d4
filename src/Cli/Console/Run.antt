-- ===== src/Cli/Console/Run.antt =====
-- main/cli/uart.c: sequences of inputs of the console.
use esp_owl.Base.{
  Bool, true, if◌then◌else◌, Bool-cases, List, [], arith, false, inl, inr, length, refl, subst,
  append-nil, take, take_append, ℕ, ◌++◌, ◌+◌, ◌<◌, ◌==◌, ◌∷◌, ◌≡◌, sym,
}
use esp_owl.RingBuffer.{init_ring_buffer}
use esp_owl.Cli.Console.{
  Console, Reply, console_init, console_step, corrupts, restarts, runs, waits,
}
use esp_owl.Cli.Console.Edit.{
  Agrees, IsValid, Matches, backspace-Agrees, clear-Agrees, edit, text, type_bytes-Agrees,
}

-- An input that the text alone decides on: its first byte is neither the key that deletes a word,
-- nor the beginning of an arrow, and the line with it has less than 256 bytes.
abbrev pub Short : List ℕ → List ℕ → Type 0
Short line [] = ⊥
Short line (key ∷ bytes) =
    ((key == 23) ≡ false) × ((key == 27) ≡ false) × (length line + length (key ∷ bytes) < 256)

-- What malloc gives the new task for its array, and its history, of 20 places, is only memory.
abbrev pub Memory : Console → Type 0
Memory memory = length memory.command ≡ 1024

init-Agrees :
    (memory : Console) → Memory memory → Agrees (console_init memory, restarts) ([], restarts)
unfolding console_init init_ring_buffer
init-Agrees memory size = (
  record {
    size = size;
    byte = omega arith;
    history = record { start_bound = omega arith; size_bound = omega arith; end_place = refl };
  },
  refl,
  tt,
)

-- One input, behind which the buffer has the bytes of earlier ones.
pub console_step-Agrees :
    (usable : ℕ → ℕ) (memory c : Console) (input stale : List ℕ)
    → Memory memory
    → IsValid c
    → Short (text c) input
    → Agrees
        (console_step usable memory c (input ++ stale) (length input))
        (edit usable (text c) input)
unfolding console_step
console_step-Agrees usable memory c [] stale size v short = elim short [ ]
console_step-Agrees usable memory c (key ∷ bytes) stale size v (no_word, no_arrow, room) =
    let some_bytes : (length (key ∷ bytes) == 0) ≡ false = ground arith in
    let whole : take (length (key ∷ bytes)) ((key ∷ bytes) ++ stale) ≡ key ∷ bytes =
      take_append (key ∷ bytes) stale in
    elim (Bool-cases (key == 3)) [
      | inl e ↦ rw (some_bytes, e) (clear-Agrees c waits waits v tt)
      | inr e3 ↦ elim (Bool-cases (key == 18)) [
        | inl e ↦ rw (some_bytes, e3, e) (init-Agrees memory size)
        | inr e18 ↦ elim (Bool-cases (key == 127)) [
          | inl e ↦ rw (some_bytes, e3, e18, e) (backspace-Agrees c v)
          | inr e127 ↦
              rw (some_bytes, e3, e18, e127, no_word, no_arrow, whole)
                (type_bytes-Agrees usable c (key ∷ bytes) v room)
        ]
      ]
    ]

-- Nothing can be said of what follows a write behind memory.
abbrev pub goes_on : Reply → Bool
goes_on corrupts = false
goes_on _ = true

goes_on-Matches : (r e : Reply) → Matches r e → goes_on r ≡ goes_on e
goes_on-Matches waits waits m = refl
goes_on-Matches restarts restarts m = refl
goes_on-Matches corrupts corrupts m = refl
goes_on-Matches (runs s) (runs t) m = refl
goes_on-Matches _ _ m = absurd m

-- The inputs one after another, up to a write behind memory: the replies, and the state in the end.
abbrev pub run_console : (ℕ → ℕ) → Console → Console → List (List ℕ) → List Reply × Console
run_console usable memory c [] = ([], c)
run_console usable memory c (input ∷ inputs) =
    let (c', reply) = console_step usable memory c input (length input) in
    let (replies, last) = run_console usable memory c' inputs in
    if goes_on reply then (reply ∷ replies, last) else (reply ∷ [], c')

abbrev pub run_edit : (ℕ → ℕ) → List ℕ → List (List ℕ) → List Reply × List ℕ
run_edit usable line [] = ([], line)
run_edit usable line (input ∷ inputs) =
    let (line', reply) = edit usable line input in
    let (replies, last) = run_edit usable line' inputs in
    if goes_on reply then (reply ∷ replies, last) else (reply ∷ [], line')

abbrev pub AllShort : (ℕ → ℕ) → List ℕ → List (List ℕ) → Type 0
AllShort usable line [] = Unit
AllShort usable line (input ∷ inputs) =
    Short line input × AllShort usable (edit usable line input).0 inputs

abbrev pub AllMatch : List Reply → List Reply → Type 0
AllMatch [] [] = Unit
AllMatch (r ∷ rs) (e ∷ es) = Matches r e × AllMatch rs es
AllMatch _ _ = ⊥

-- The console answers every sequence of short inputs, whatever they are, as the plain editor does on
-- the text of the line, up to a write behind the memory for a line, if it comes to that: the text is
-- the same in the end, a restart leaves an empty line, and a line is run, or written behind its
-- memory, in both or in none.
pub console-run :
    (usable : ℕ → ℕ) (memory c : Console) (inputs : List (List ℕ))
    → Memory memory
    → IsValid c
    → AllShort usable (text c) inputs
    → let (replies, last) = run_console usable memory c inputs in
      let (expected, line) = run_edit usable (text c) inputs in
      AllMatch replies expected × IsValid last × (text last ≡ line)
console-run usable memory c [] size v short = (tt, v, refl)
console-run usable memory c (input ∷ inputs) size v (short, later) =
    let first = console_step usable memory c input (length input) in
    let (line, expected) = edit usable (text c) input in
    let (v', shown, same) : Agrees first (line, expected) =
      subst
        (λ (bytes : List ℕ).
          Agrees (console_step usable memory c bytes (length input)) (edit usable (text c) input))
        (append-nil input) (console_step-Agrees usable memory c input [] size v short) in
    let (matches, v'', end) : AllMatch (run_console usable memory first.0 inputs).0
          (run_edit usable line inputs).0
        × IsValid (run_console usable memory first.0 inputs).1
        × (text (run_console usable memory first.0 inputs).1 ≡ (run_edit usable line inputs).1) =
      subst
        (λ (t : List ℕ).
          let (replies, last) = run_console usable memory first.0 inputs in
          AllMatch replies (run_edit usable t inputs).0
          × IsValid last
          × (text last ≡ (run_edit usable t inputs).1))
        shown
        (console-run usable memory first.0 inputs size v'
          (subst (λ (t : List ℕ). AllShort usable t inputs) (sym shown) later)) in
    elim (Bool-cases (goes_on expected)) [
      | inl on ↦ rw (goes_on-Matches first.1 expected same, on) ((same, matches), v'', end)
      | inr off ↦ rw (goes_on-Matches first.1 expected same, off) ((same, tt), v', shown)
    ]
