-- ===== src/CircularBuffer/Tests.antt =====
-- main/owl/circular_buffer.c: a buffer of three numbers.
use esp_owl.Base.{List, [], arith, false, none, refl, some, true, ℕ, ◌∷◌, ◌≡◌}
use esp_owl.Base.Int.{negsuc, pos}
use esp_owl.CircularBuffer.{
  CircularBuf, advance_pointer, circular_buf_empty, circular_buf_full, circular_buf_get,
  circular_buf_init, circular_buf_put, circular_buf_put2, circular_buf_reset, retreat_pointer,
}
use esp_owl.CircularBuffer.Contents.{IsValid, contents}
use esp_owl.CircularBuffer.Run.{Call, circular_buf-run, get, put, put2, run_buffer, run_queue}

abbrev zeros : CircularBuf ℕ
zeros = record { buffer = λ _. 0; head = 7; tail = 7; max = 7; full = true }

abbrev calls : List (Call ℕ)
calls = put 1 ∷ put 2 ∷ put 3 ∷ put2 4 ∷ put 5 ∷ get true ∷ get false ∷ put2 6 ∷ get false ∷ []

-- The full buffer refuses 4, and 5 takes the place of 1.
calls_lem :
    (run_buffer calls (circular_buf_init zeros 3)).0
    ≡ (pos 0, none)
      ∷ (pos 0, none)
      ∷ (pos 0, none)
      ∷ (negsuc 0, none)
      ∷ (pos 0, none)
      ∷ (pos 0, some 2)
      ∷ (pos 0, some 2)
      ∷ (pos 0, none)
      ∷ (pos 0, some 3)
      ∷ []
unfolding circular_buf_init circular_buf_reset circular_buf_put advance_pointer circular_buf_put2
    circular_buf_full circular_buf_get circular_buf_empty retreat_pointer
calls_lem = refl

circular_buf-run_example :
    let (replies, c) = run_buffer calls (circular_buf_init zeros 3) in
    let (expected, q) = run_queue 3 calls [] in (replies ≡ expected) × IsValid c × (contents c ≡ q)
circular_buf-run_example = circular_buf-run zeros 3 calls (omega arith)
