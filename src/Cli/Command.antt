-- ===== src/Cli/Command.antt =====
-- main/cli/command.c: what a line of the console makes the node do.
use Prim.Native.Char.{code}
use Prim.Native.String.{String}
use esp_owl.Base.{
  Bool, List, Option, [], false, if◌then◌else◌, leb, length, map, none, not, some, take, true, ℕ,
  ◌&&◌, ◌++◌, ◌+◌, ◌==◌, ◌||◌, ◌∷◌,
}
use esp_owl.Ethernet.{EtherAddr}
use esp_owl.Core.{ether_addr_to_in6_addr, parse_mac_address}
use esp_owl.Cli.Trim.{space}

abbrev pub codes : String → List ℕ
codes String.[] = []
codes (String.◌∷◌ c s) = code c ∷ codes s

-- The calls that a command makes. A request goes to an IPv6 address; `null_pointer` is the access
-- through a null pointer.
pub data Action : Type 0 where
  nothing print_error null_pointer : Action
  test_cert test_backtrace list_tasks : Action
  awdl_neighbors_print awdl_disable : Action
  print_stored_cert_and_key generate_and_store_cert_key invalid_mac_address : Action
  https_request : List ℕ → Action
  resume_mdns suspend_mdns : Action

-- `strcmp(...) == 0`
abbrev pub str_eq : List ℕ → List ℕ → Bool
str_eq [] [] = true
str_eq [] (_ ∷ _) = false
str_eq (_ ∷ _) [] = false
str_eq (a ∷ s) (b ∷ t) = a == b && str_eq s t

abbrev pub is_end : ℕ → Bool
is_end c = c == 0 || (c == b'\r' || c == b'\n')

-- `str[strcspn(str, "\r\n")] = 0`
unfoldable pub cut_line : List ℕ → List ℕ
cut_line [] = []
cut_line (c ∷ str) = elim (is_end c) [ true ↦ [] | false ↦ c ∷ cut_line str ]

abbrev pub end_token : List ℕ → List (List ℕ) → List (List ℕ)
end_token [] tokens = tokens
end_token (c ∷ token) tokens = (c ∷ token) ∷ tokens

-- What `strtok` with " " gives, call after call, behind the beginning of a token.
unfoldable pub tokens : List ℕ → List ℕ → List (List ℕ)
tokens token [] = end_token token []
tokens token (c ∷ str) = elim (c == space) [
  | true ↦ end_token token (tokens [] str)
  | false ↦ tokens (token ++ (c ∷ [])) str
]

abbrev pub to_lower : ℕ → ℕ
to_lower c = if leb b'A' c && leb c b'Z' then c + 32 else c

abbrev pub commands : List (List ℕ)
commands =
    codes "ble" ∷ codes "awdl" ∷ codes "drop" ∷ codes "mdns" ∷ codes "tasks" ∷ codes "trace" ∷ []

-- `none` is -1.
unfoldable pub index_from : List (List ℕ) → List ℕ → ℕ → Option ℕ
index_from [] str i = none
index_from (s ∷ array) str i = if str_eq s str then some i else index_from array str (i + 1)

unfoldable pub get_index_of_string : List (List ℕ) → List ℕ → Option ℕ
unfolding index_from
get_index_of_string array str = index_from array str 0

abbrev pub cert_command : List (List ℕ) → Action
cert_command [] = nothing
cert_command (arg ∷ _) =
    if str_eq arg (codes "print")
    then print_stored_cert_and_key
    else if str_eq arg (codes "gen")
    then generate_and_store_cert_key
    else nothing

-- `garbage` is where the pointer to the address points when the text is no address.
abbrev pub discover_command : EtherAddr → List (List ℕ) → Action
discover_command garbage (arg ∷ []) =
    let mac : EtherAddr = elim (parse_mac_address arg) [ none ↦ garbage | some addr ↦ addr ] in
    if not (length arg == 17)
    then invalid_mac_address
    else https_request (ether_addr_to_in6_addr mac)
discover_command garbage _ = nothing

unfoldable pub handle_opendrop_command : EtherAddr → List (List ℕ) → Action
handle_opendrop_command garbage [] = nothing
handle_opendrop_command garbage (arg ∷ args) =
    if str_eq arg (codes "cert")
    then cert_command args
    else if str_eq arg (codes "dis")
    then discover_command garbage args
    else nothing

unfoldable pub hangle_awdl_command : List (List ℕ) → Action
hangle_awdl_command (arg ∷ []) =
    if str_eq arg (codes "list")
    then awdl_neighbors_print
    else if str_eq arg (codes "disable")
    then awdl_disable
    else nothing
hangle_awdl_command _ = nothing

-- `case MDNS_COMMAND`, by the flag `mdns_enabled`.
unfoldable pub mdns_command : Bool → List (List ℕ) → Action
mdns_command enabled (arg ∷ []) =
    if str_eq arg (codes "enable")
    then if enabled then nothing else resume_mdns
    else if str_eq arg (codes "disable")
    then if enabled then nothing else suspend_mdns
    else nothing
mdns_command enabled _ = nothing

-- The `switch` on the index of the command.
unfoldable pub run_command : Bool → EtherAddr → List ℕ → List (List ℕ) → Action
run_command enabled garbage command arguments =
    elim (get_index_of_string commands (map to_lower command)) [
      | none ↦ print_error
      | some index ↦
          if index == 0
          then test_cert
          else if index == 1
          then hangle_awdl_command arguments
          else if index == 2
          then handle_opendrop_command garbage arguments
          else if index == 3
          then mdns_command enabled arguments
          else if index == 4
          then list_tasks
          else if index == 5
          then test_backtrace
          else print_error
    ]

-- The command and at most 20 arguments.
unfoldable pub run_tokens : Bool → EtherAddr → List (List ℕ) → Action
run_tokens enabled garbage [] = null_pointer
run_tokens enabled garbage (command ∷ arguments) =
    run_command enabled garbage command (take 20 arguments)

abbrev pub run_line : Bool → EtherAddr → List ℕ → Action
run_line enabled garbage [] = nothing
run_line enabled garbage (c ∷ str) = run_tokens enabled garbage (tokens [] (c ∷ str))

unfoldable pub main_cmd : Bool → EtherAddr → List ℕ → Action
main_cmd enabled garbage str = run_line enabled garbage (cut_line str)
