-- ===== src/Cli/Tests.antt =====
-- main/cli: lines of the console.
use mathlib.Core.List.{cons-ne-nil}
use esp_owl.Base.{List, [], arith, inr, false, refl, replicate, take, true, ℕ, ◌+◌, ◌++◌, ◌∷◌, ◌≡◌}
use esp_owl.Ethernet.{IsAddr}
use esp_owl.Peers.Table.Tests.{node}
use esp_owl.Core.{ether_addr_to_in6_addr, ether_addr_to_string}
use esp_owl.Cli.Trim.{trim_command, trim_command_lem}
use esp_owl.Cli.Command.{
  codes, cut_line, https_request, main_cmd, mdns_command, nothing, null_pointer, run_command,
  run_tokens, tokens,
}
use esp_owl.Cli.Words.{main_cmd-drop_dis, main_cmd_words}
use esp_owl.Cli.Console.{Console, Reply, runs, waits}
use esp_owl.Cli.Console.Edit.{IsValid, text}
use esp_owl.Cli.Console.Run.{AllMatch, console-run, run_console}

-- Spaces alone make the node follow a null pointer, and mDNS that is enabled cannot be disabled.
refused :
    (main_cmd false (node 0) (codes "  \r") ≡ null_pointer)
    × (mdns_command true (codes "disable" ∷ []) ≡ nothing)
unfolding main_cmd cut_line tokens run_tokens mdns_command
refused = (refl, refl)

trim_command_lem_example :
    let (command, command_len) = trim_command (codes "ab  cd  " ++ (0 ∷ 0 ∷ [])) 8 in
    take command_len command ≡ codes "ab "
trim_command_lem_example =
    trim_command_lem (codes "ab") (codes "c") (0 ∷ 0 ∷ []) b'd' 1 2
      (inr (codes "a", b'b', refl, refl)) (refl, tt) refl

main_cmd_words_example :
    main_cmd false (node 0) (codes "BLE x y\r\n")
    ≡ run_command false (node 0) (codes "BLE") (codes "x" ∷ codes "y" ∷ [])
main_cmd_words_example =
    main_cmd_words false (node 0) (codes "BLE") (codes "x" ∷ codes "y" ∷ []) (b'\n' ∷ [])
      (cons-ne-nil _ _, ((refl, refl), ((refl, refl), ((refl, refl), tt))))
      ((cons-ne-nil _ _, ((refl, refl), tt)), ((cons-ne-nil _ _, ((refl, refl), tt)), tt))

node_seven : IsAddr (node 7)
node_seven =
    (omega arith, (omega arith, (omega arith, (omega arith, (omega arith, (omega arith, tt))))))

main_cmd-drop_dis_example :
    main_cmd false (node 0) (codes "drop dis " ++ (ether_addr_to_string (node 7) ++ (b'\r' ∷ [])))
    ≡ https_request (ether_addr_to_in6_addr (node 7))
main_cmd-drop_dis_example = main_cmd-drop_dis false (node 0) (node 7) [] node_seven

abbrev console : Console
console = record {
  command = replicate 1024 0;
  command_len = 0;
  history = record { slots = λ _. codes "awdl list\r"; start = 0; end = 1; size = 1 };
}

console-IsValid : IsValid console
console-IsValid = record {
  size = refl;
  byte = omega arith;
  history = record { start_bound = omega arith; size_bound = omega arith; end_place = refl };
}

abbrev inputs : List (List ℕ)
inputs = codes "a" ∷ codes "wx" ∷ (127 ∷ []) ∷ codes "dl" ∷ codes "\r" ∷ codes "b" ∷ (18 ∷ []) ∷ []

console-run_example :
    let (replies, last) = run_console (λ n. n + 1) console console inputs in
    AllMatch replies
      (waits ∷ waits ∷ waits ∷ waits ∷ runs (codes "awdl\r") ∷ waits ∷ Reply.restarts ∷ [])
    × IsValid last
    × (text last ≡ [])
console-run_example =
    console-run (λ n. n + 1) console console inputs refl console-IsValid
      (
        (refl, refl, omega arith),
        (
          (refl, refl, omega arith),
          (
            (refl, refl, omega arith),
            (
              (refl, refl, omega arith),
              (
                (refl, refl, omega arith),
                ((refl, refl, omega arith), ((refl, refl, omega arith), tt)),
              ),
            ),
          ),
        ),
      )
