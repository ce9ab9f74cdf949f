-- ===== src/Perf/RingBufferTests.antt =====
-- A ring buffer of pkg/sys/perf/ringbuffer.go of four bytes, and the theorems at it.
use capsule.Prelude.{
  ℕ, ◌+◌, ◌-◌, ◌%◌, List, [], ◌∷◌, get_elem?, none, length, ◌≡◌, refl, arith, if◌then◌else◌,
}
use capsule.Perf.RingBuffer.{Load, span, in_order, window, read, is_behind}
use capsule.Perf.RingBuffer.Window.{get_elem?-window, Ahead, total, last_head, read_lem}

abbrev four : List ℕ
four = 1 ∷ 2 ∷ 3 ∷ 4 ∷ []

-- From position 6 to 9 the window wraps around.
get_elem?-window_example :
    get_elem? (window four 6 9) 2
    ≡ (if is_behind 2 (9 - 6) then get_elem? four ((6 + 2) % length four) else none)
get_elem?-window_example = get_elem?-window four 6 9 2 (omega arith) (omega arith)

wrapped_bytes : window four 6 9 ≡ 3 ∷ 4 ∷ 1 ∷ []
unfolding window span in_order
wrapped_bytes = refl

abbrev loads : List Load
loads = record { bytes = four; head = 9 } ∷ record { bytes = four; head = 11 } ∷ []

loads-Ahead : Ahead 6 loads
loads-Ahead = (omega arith, omega arith, (omega arith, omega arith, tt))

read_lem_example :
    (6 + total (read 6 loads).0 ≡ last_head 6 loads) × ((read 6 loads).1 ≡ last_head 6 loads)
read_lem_example = read_lem 6 loads loads-Ahead
