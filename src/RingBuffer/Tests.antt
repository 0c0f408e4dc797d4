-- ===== src/RingBuffer/Tests.antt =====
-- main/utils/ringbuffer.c: a history of numbers.
use esp_owl.Base.{[], arith, none, refl, some, ℕ, ◌∷◌, ◌≡◌}
use esp_owl.Base.Segments.{push}
use esp_owl.Base.Int.{negsuc, pos}
use esp_owl.RingBuffer.{
  RingBuffer, get_ring_buffer_index, lower_index, put_ring_buffer, ring_index, set_index,
}
use esp_owl.RingBuffer.History.{IsValid, history, history-put}
use esp_owl.RingBuffer.Index.{history-set_index}

-- The oldest value, 19, stands at the end of the array, and an index of -1 reads the place behind
-- the newest, where no value has been put.
abbrev three : RingBuffer ℕ
three = record { slots = λ i. i; start = 19; end = 2; size = 3 }

three-IsValid : IsValid three
three-IsValid = record { start_bound = omega arith; size_bound = omega arith; end_place = refl }

three_lem :
    (history three ≡ 19 ∷ 0 ∷ 1 ∷ [])
    × (get_ring_buffer_index three (pos 0) ≡ some 1)
    × (get_ring_buffer_index three (pos 3) ≡ none)
    × (get_ring_buffer_index three (negsuc 0) ≡ some 2)
    × (history (set_index three (pos 20) 5) ≡ 19 ∷ 0 ∷ 5 ∷ [])
unfolding history get_ring_buffer_index set_index ring_index lower_index
three_lem = (refl, refl, refl, refl, refl)

history-put_example :
    IsValid (put_ring_buffer three 7)
    × (history (put_ring_buffer three 7) ≡ push 20 (history three) 7)
history-put_example = history-put three 7 three-IsValid

history-set_index_example :
    IsValid (set_index three (negsuc 19) 7)
    × (history (set_index three (negsuc 19) 7) ≡ 19 ∷ 0 ∷ 7 ∷ [])
unfolding history
history-set_index_example = history-set_index three (negsuc 19) 7 three-IsValid
