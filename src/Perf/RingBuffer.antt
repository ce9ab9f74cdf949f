-- ===== src/Perf/RingBuffer.antt =====
-- The reading of a ring buffer in pkg/sys/perf/ringbuffer.go. The kernel writes behind `data_head`, and
-- may do so between two loads of it: each load comes with the bytes of the buffer at that time.
pub mod Window
use capsule.Prelude.{
  ℕ, ◌+◌, ◌-◌, ◌%◌, List, [], ◌∷◌, ◌++◌, Bool, true, false, ltb, leb, if◌then◌else◌, length, take,
  drop,
}

-- `ends >= begins`
unfoldable pub in_order : ℕ → ℕ → Bool
in_order begins ends = leb begins ends

-- The bytes from the tail to the head, which may wrap around; both stand below the length.
unfoldable pub span : List ℕ → ℕ → ℕ → List ℕ
unfolding in_order
span bytes begins ends =
    if in_order begins ends
    then take (ends - begins) (drop begins bytes)
    else drop begins bytes ++ take ends bytes

unfoldable pub window : List ℕ → ℕ → ℕ → List ℕ
unfolding span
window bytes tail head = span bytes (tail % length bytes) (head % length bytes)

-- A load of `data_head`, with the bytes.
pub record Load : Type 0 where
  pub bytes : List ℕ
  pub head : ℕ

-- `tail < head`
unfoldable pub is_behind : ℕ → ℕ → Bool
is_behind tail head = ltb tail head

-- What the loop hands over at each load, and the tail that it stores at last. It ends at the first load
-- that brings nothing new.
unfoldable pub read : ℕ → List Load → List (List ℕ) × ℕ
unfolding window is_behind
read tail [] = ([], tail)
read tail (load ∷ loads) =
    let (rest, last) = read load.head loads in
    if is_behind tail load.head then (window load.bytes tail load.head ∷ rest, last) else ([], tail)
