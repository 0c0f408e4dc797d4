-- ===== src/Core/Events/Tests.antt =====
-- A node that hears a foreign frame, sends a packet, cleans up and is disabled.
use esp_owl.Base.{
  All, IsByte, ℕ, zero, suc, [], arith, false, ltb, none, refl, replicate, true, ◌∷◌, ◌≡◌,
}
use esp_owl.HashMap.{hashmap_new}
use esp_owl.Peers.Table.Tests.{node, ready}
use esp_owl.Rx.Tests.{me, stack}
use esp_owl.Core.Air.Tests.{garbage, ieee, sig_len}
use esp_owl.Core.Capture.{wifi_sniffer_packet_handler}
use esp_owl.Core.Air.Any.{Air}
use esp_owl.Core.Events.{
  Node, Platform, captured, clean, disable, happens, packet, receives, unicast, wifi_sniffer_init,
}
use esp_owl.Core.Events.Reach.{IsValid, here, reaches-IsValid, step}

abbrev board : Platform
board = record {
  hash = λ a. a.octet5;
  calloc = λ n. ltb n 4096;
  fuel = 4;
  ctrl_len = 2;
  peer_garbage = ready;
  stack = stack;
  fresh = replicate 1518 0;
  llc_garbage = garbage;
  has_netif = true;
  sig_len = sig_len;
  dst_garbage = node 0;
  is_multicast_addr = λ _. false;
  alloc = λ n. replicate n 0;
}

abbrev memory : Node board
memory = record {
  radio = record { node = record me { running = true }; ieee = ieee; sent = []; host = [] };
  peers = hashmap_new;
  next = none;
  tx_queue = record {
    buffer = λ _. record { bytes = []; off = 0; len = 0; owned = false };
    head = 7;
    tail = 9;
    max = 0;
    full = true;
  };
}

abbrev born : Node board
born = wifi_sniffer_init board (node 3) 40000 memory

-- A frame without the address of AWDL.
abbrev foreign : Air
foreign = record { now = 800000; type = 2; buff = replicate 90 255 }

replicate-IsByte : (n : ℕ) → All IsByte (replicate n 255)
replicate-IsByte zero = tt
replicate-IsByte (suc n) = (omega arith, replicate-IsByte n)

abbrev heard : Node board
heard = happens board (captured foreign) born

abbrev sent : Node board
sent = happens board (unicast 900000) (happens board (packet false (0x60 ∷ replicate 60 9)) heard)

abbrev last : Node board
last = happens board (disable true) (happens board (clean 3000000) sent)

in_place : (receives board foreign born).overrun ≡ false
unfolding wifi_sniffer_packet_handler wifi_sniffer_init
in_place = refl

reaches-IsValid_example : IsValid board (node 3) last
reaches-IsValid_example = reaches-IsValid board (node 3) 40000 memory last (omega arith) (
    step (disable true)
      (step (clean 3000000)
        (step (unicast 900000)
          (step (packet false (0x60 ∷ replicate 60 9))
            (step (captured foreign) here (replicate-IsByte 90, in_place)) tt)
          tt)
        tt)
      tt)
