-- ===== src/Rx/Aggregate/Tests.antt =====
-- An aggregate of two parts.
use esp_owl.Base.{List, [], arith, false, replicate, ℕ, ◌++◌, ◌∷◌, ◌≡◌}
use esp_owl.Ethernet.{octets}
use esp_owl.Peers.Table.Tests.{Entries, entries, node, one_peer}
use esp_owl.Rx.Action.{RxState}
use esp_owl.Rx.Data.{LlcHdr, awdl_rx_data_amsdu}
use esp_owl.Rx.Aggregate.{amsdu_enough}
use esp_owl.Rx.Tests.{me}
use esp_owl.Tx.Frames.{awdl_init_data, llc_init_awdl_hdr}

abbrev garbage : LlcHdr
garbage = record { dsap = 0; ssap = 0; control = 0; oui = []; pid = 0 }

abbrev part : List ℕ
part = llc_init_awdl_hdr ++ ((awdl_init_data me).0 ++ replicate 6 9)

abbrev parts : List ℕ
parts =
    octets (node 1)
    ++ (octets (node 7)
        ++ (0 ∷ 22 ∷ (part ++ (octets (node 1) ++ (octets (node 7) ++ (0 ∷ 22 ∷ part))))))

abbrev start : RxState Entries
start = record {
  frame = record { bytes = parts; off = 0; len = 72; owned = false };
  node = me;
  peers = one_peer;
  out = [];
}

amsdu_enough_example :
    awdl_rx_data_amsdu entries (replicate 1518 0) garbage 72 start
    ≡ awdl_rx_data_amsdu entries (replicate 1518 0) garbage 100 start
amsdu_enough_example =
    amsdu_enough entries (replicate 1518 0) garbage 72 100 start (omega arith) (omega arith)
