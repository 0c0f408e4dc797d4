-- ===== src/Cli/Console.antt =====
-- main/cli/uart.c: `uart_event_task`, the editor of the command line.
pub mod Edit
pub mod Run
use esp_owl.Base.{
  Bool, List, Option, [], false, get_or, if◌then◌else◌, length, ltb, none, replicate, set, set_all,
  not, leb, some, take, true, ℕ, ◌%◌, ◌+◌, ◌-◌, ◌==◌, ◌&&◌, ◌||◌, ◌∷◌,
}
use esp_owl.Base.Int.{pos}
use esp_owl.RingBuffer.{RingBuffer, get_ring_buffer_index, init_ring_buffer, put_ring_buffer}
use esp_owl.Cli.Trim.{trim_command}

-- `BUF_SIZE`
abbrev pub buf_size : ℕ
buf_size = 1024

-- The variables of the task: the array `command`, and the history of strings, each of them what
-- stands in front of its first 0.
pub record Console : Type 0 where
  pub command : List ℕ
  pub command_len : ℕ
  pub history : RingBuffer (List ℕ)

-- What a key makes of the node: it waits for the next, restarts, calls main_cmd on the array, or
-- writes behind an array, after which what it does is undefined.
pub data Reply : Type 0 where
  waits restarts corrupts : Reply
  runs : List ℕ → Reply

-- `garbage` is the memory of the task before. The array is not cleared.
unfoldable pub console_init : Console → Console
console_init garbage = record {
  command = garbage.command;
  command_len = 0;
  history = init_ring_buffer garbage.history;
}

-- The string in an array, whose last byte is 0 at the latest.
unfoldable pub c_str : List ℕ → List ℕ
c_str [] = []
c_str (c ∷ str) = elim (c == 0) [ true ↦ [] | false ↦ c ∷ c_str str ]

-- `command_len = 0; bzero(command, BUF_SIZE);`
unfoldable pub clear : Console → Console
clear c = record c { command = replicate buf_size 0; command_len = 0 }

unfoldable pub backspace : Console → Console
backspace c =
    if ltb 0 c.command_len
    then record c { command = set c.command (c.command_len - 1) 0; command_len = c.command_len - 1 }
    else c

unfoldable pub delete_word : Console → Console
delete_word c =
    let (command, command_len) = trim_command c.command c.command_len in
    record c { command = command; command_len = command_len % 256 }

-- The last command of the history, or the empty string, over the line.
unfoldable pub up_arrow : Console → Console
up_arrow c =
    let new_command : List ℕ = elim (get_ring_buffer_index c.history (pos 0)) [
      | none ↦ []
      | some str ↦ c_str str
    ] in
    let command = set_all c.command 0 new_command in
    record c { command = command; command_len = length (c_str command) % 256 }

abbrev pub has_return : List ℕ → Bool
has_return [] = false
has_return (c ∷ bytes) = c == 13 || has_return bytes

-- `default`: bytes that the array has no room for are written behind it. `usable n` is how many bytes may be written through
-- what `malloc(n)` returns; the string in the history is ended by a 0 at `command_len`.
unfoldable pub type_bytes : (ℕ → ℕ) → Console → List ℕ → Console × Reply
type_bytes usable c bytes =
    let command = set_all c.command c.command_len bytes in
    let command_len = (c.command_len + length bytes) % 256 in
    let typed : Console = record c { command = command; command_len = command_len } in
    if ltb (length c.command) (c.command_len + length bytes)
    then (c, corrupts)
    else if not (has_return bytes)
    then (typed, waits)
    else if leb (usable command_len) command_len
    then (typed, corrupts)
    else (
      clear (record typed { history = put_ring_buffer c.history (take command_len command) }),
      runs command,
    )

-- A round of the loop: the first `len` bytes of `buffer` have been read. `esp_restart` does not
-- return: the next round is that of a new task, whose variables are in memory that holds `memory`.
unfoldable pub console_step : (ℕ → ℕ) → Console → Console → List ℕ → ℕ → Console × Reply
console_step usable memory c buffer len =
    let key = get_or buffer 0 0 in
    if len == 0
    then (c, waits)
    else if key == 3
    then (clear c, waits)
    else if key == 18
    then (console_init memory, restarts)
    else if key == 127
    then (backspace c, waits)
    else if key == 23
    then (delete_word c, waits)
    else if key == 27
    then (if get_or buffer 1 0 == 91 && get_or buffer 2 0 == 65 then up_arrow c else c, waits)
    else type_bytes usable c (take len buffer)
