-- ===== src/Perf/RingBuffer/Window.antt =====
-- The bytes that the reader of pkg/sys/perf/ringbuffer.go hands over.
use native.Mathlib.Nat.{mod-add-mod, mod-eq_of_lt, mod-eq-sub-mod, mod-lt}
use capsule.Prelude.{
  ℕ, zero, suc, ◌+◌, ◌-◌, ◌%◌, ◌<◌, ◌≤◌, List, [], ◌∷◌, ◌++◌, true, false, if◌then◌else◌, length,
  length-append, length-take, length-drop, take, drop, get_elem?, none, ◌≡◌, ◌⊎◌, inl, inr, refl,
  sym, ap, ◌∙◌, arith, dec_lt,
}
use capsule.Perf.RingBuffer.{span, window, Load, read, is_behind, in_order}

get_elem?-drop : (n i : ℕ) (l : List ℕ) → get_elem? (drop n l) i ≡ get_elem? l (n + i)
get_elem?-drop zero i l = ap (get_elem? l) (omega arith)
get_elem?-drop (suc n) i [] = refl
get_elem?-drop (suc n) i (x ∷ l) =
    let e : suc n + i ≡ suc (n + i) = omega arith in
    get_elem?-drop n i l ∙ ap (get_elem? (x ∷ l)) (sym e)

get_elem?-take : (n i : ℕ) (l : List ℕ) → i < n → get_elem? (take n l) i ≡ get_elem? l i
get_elem?-take zero i l h = absurd (omega arith)
get_elem?-take (suc n) i [] h = refl
get_elem?-take (suc n) zero (x ∷ l) h = refl
get_elem?-take (suc n) (suc i) (x ∷ l) h = get_elem?-take n i l (omega arith)

get_elem?-append_left : (l m : List ℕ) (i : ℕ) → i < length l → get_elem? (l ++ m) i ≡ get_elem? l i
get_elem?-append_left [] m i h = absurd (omega arith)
get_elem?-append_left (x ∷ l) m zero h = refl
get_elem?-append_left (x ∷ l) m (suc i) h = get_elem?-append_left l m i (omega arith)

get_elem?-append_right :
    (l m : List ℕ) (i : ℕ) → length l ≤ i → get_elem? (l ++ m) i ≡ get_elem? m (i - length l)
get_elem?-append_right [] m i h = ap (get_elem? m) (omega arith)
get_elem?-append_right (x ∷ l) m zero h = absurd (omega arith)
get_elem?-append_right (x ∷ l) m (suc i) h =
    get_elem?-append_right l m i (omega arith) ∙ ap (get_elem? m) (omega arith)

-- A position behind the tail, in a buffer of `n` bytes.
place :
    (tail k n : ℕ)
    → k < n
    → ((tail % n + k < n) × ((tail + k) % n ≡ tail % n + k))
      ⊎ ((n ≤ tail % n + k) × ((tail + k) % n ≡ tail % n + k - n))
place tail k n h = elim (dec_lt (tail % n + k) n) [
  | yes l ↦ inl (l, sym (mod-add-mod tail n k) ∙ mod-eq_of_lt l)
  | no l ↦
      let b : tail % n < n = mod-lt tail (omega arith) in
      let g : n ≤ tail % n + k = omega arith in
      let f : tail % n + k - n < n = omega arith in
      inr (g, sym (mod-add-mod tail n k) ∙ mod-eq-sub-mod g ∙ mod-eq_of_lt f)
]

get_elem?-none : (l : List ℕ) (i : ℕ) → length l ≤ i → get_elem? l i ≡ none
get_elem?-none [] i h = refl
get_elem?-none (x ∷ l) zero h = absurd (omega arith)
get_elem?-none (x ∷ l) (suc i) h = get_elem?-none l i (omega arith)

behind : (a b : ℕ) → a < b → is_behind a b ≡ true
unfolding is_behind
behind a b h = ground arith

not_behind : (a b : ℕ) → b ≤ a → is_behind a b ≡ false
unfolding is_behind
not_behind a b h = ground arith

ordered : (a b : ℕ) → a ≤ b → in_order a b ≡ true
unfolding in_order
ordered a b h = ground arith

not_ordered : (a b : ℕ) → b < a → in_order a b ≡ false
unfolding in_order
not_ordered a b h = ground arith

-- The bytes of a span that does not wrap around.
straight :
    (bytes : List ℕ) (b k i : ℕ)
    → b + k ≤ length bytes
    → get_elem? (span bytes b (b + k)) i ≡ (if is_behind i k then get_elem? bytes (b + i) else none)
unfolding span
straight bytes b k i h =
    let e : b + k - b ≡ k = omega arith in
    rw (span, ordered b (b + k) (omega arith), e)
      (elim (dec_lt i k) [
        | yes l ↦ rw (behind i k l) (get_elem?-take k i (drop b bytes) l ∙ get_elem?-drop b i bytes)
        | no l ↦ rw (not_behind i k (omega arith)) (
            get_elem?-none (take k (drop b bytes)) i
              (omega (arith, length-take k (drop b bytes), length-drop b bytes)))
      ])

-- The bytes of a span that does.
wrapped :
    (bytes : List ℕ) (b k i : ℕ)
    → b < length bytes
    → k < length bytes
    → length bytes ≤ b + k
    → get_elem? (span bytes b (b + k - length bytes)) i ≡ (
        if is_behind i k
        then get_elem? bytes
            (if is_behind (b + i) (length bytes) then b + i else b + i - length bytes)
        else none)
unfolding span
wrapped bytes b k i h l g =
    let n : ℕ = length bytes in
    let d : length (drop b bytes) ≡ n - b = length-drop b bytes in
    rw (span, not_ordered b (b + k - n) (omega arith))
      (elim (dec_lt i (n - b)) [
        | yes m ↦
            rw (behind i k (omega arith), behind (b + i) n (omega arith))
              (get_elem?-append_left (drop b bytes) (take (b + k - n) bytes) i (omega (arith, d))
                ∙ get_elem?-drop b i bytes)
        | no m ↦
            let r =
              get_elem?-append_right (drop b bytes) (take (b + k - n) bytes) i (omega (arith, d)) in
            elim (dec_lt i k) [
              | yes m' ↦
                  rw (behind i k m', not_behind (b + i) n (omega arith))
                    (r
                      ∙ ap (get_elem? (take (b + k - n) bytes)) (omega (arith, d))
                      ∙ get_elem?-take (b + k - n) (b + i - n) bytes (omega arith))
              | no m' ↦ rw (not_behind i k (omega arith)) (
                  r
                  ∙ get_elem?-none (take (b + k - n) bytes) (i - length (drop b bytes))
                      (omega (arith, d, length-take (b + k - n) bytes)))
            ]
      ])

wrapped_place :
    (tail i n : ℕ)
    → i < n
    → (if is_behind (tail % n + i) n then tail % n + i else tail % n + i - n) ≡ (tail + i) % n
wrapped_place tail i n h = elim (place tail i n h) [
  | inl (l, e) ↦ rw (behind (tail % n + i) n l) (sym e)
  | inr (l, e) ↦ rw (not_behind (tail % n + i) n l) (sym e)
]

-- The window from the tail to the head, less than the buffer apart, is the bytes at the positions from
-- the tail on, modulo the length of the buffer, and ends at the head.
pub get_elem?-window :
    (bytes : List ℕ) (tail head i : ℕ)
    → tail ≤ head
    → head < tail + length bytes
    → get_elem? (window bytes tail head) i
      ≡ (if is_behind i (head - tail) then get_elem? bytes ((tail + i) % length bytes) else none)
unfolding window
get_elem?-window bytes tail head i h g =
    let n : ℕ = length bytes in
    let k : ℕ = head - tail in
    let b : ℕ = tail % n in
    let head_at : head ≡ tail + k = omega arith in
    elim (place tail k n (omega arith)) [
      | inl (l, e) ↦
          ap (λ j. get_elem? (span bytes b j) i) (ap (λ j. j % n) head_at ∙ e)
          ∙ straight bytes b k i (omega arith)
          ∙ elim (dec_lt i k) [
            | yes m ↦ rw (behind i k m) (
                ap (get_elem? bytes)
                  (sym (mod-eq_of_lt {n = b + i} {m = n} (omega arith)) ∙ mod-add-mod tail n i))
            | no m ↦ rw (not_behind i k (omega arith)) refl
          ]
      | inr (l, e) ↦
          ap (λ j. get_elem? (span bytes b j) i) (ap (λ j. j % n) head_at ∙ e)
          ∙ wrapped bytes b k i (mod-lt tail (omega arith)) (omega arith) l
          ∙ elim (dec_lt i k) [
            | yes m ↦
                rw (behind i k m) (ap (get_elem? bytes) (wrapped_place tail i n (omega arith)))
            | no m ↦ rw (not_behind i k (omega arith)) refl
          ]
    ]

length-span :
    (bytes : List ℕ) (b k : ℕ)
    → b < length bytes
    → k < length bytes
    → ((b + k < length bytes) → length (span bytes b (b + k)) ≡ k)
      × ((length bytes ≤ b + k) → length (span bytes b (b + k - length bytes)) ≡ k)
unfolding span
length-span bytes b k h l = (
  (λ g.
      rw (ordered b (b + k) (omega arith))
        (omega (arith, length-take (b + k - b) (drop b bytes), length-drop b bytes))),
  (λ g.
      let e = b + k - length bytes in
      rw (not_ordered b (b + k - length bytes) (omega arith)) (
        omega (
          arith,
          length-append (drop b bytes) (take e bytes),
          length-take e bytes,
          length-drop b bytes,
        ))),
)

length-window :
    (bytes : List ℕ) (tail head : ℕ)
    → tail ≤ head
    → head < tail + length bytes
    → tail + length (window bytes tail head) ≡ head
unfolding window
length-window bytes tail head h g =
    let n : ℕ = length bytes in
    let k : ℕ = head - tail in
    let s = length-span bytes (tail % n) k (mod-lt tail (omega arith)) (omega arith) in
    let head_at : head ≡ tail + k = omega arith in
    elim (place tail k n (omega arith)) [
      | inl (l, e) ↦
          let q =
            ap (λ j. length (span bytes (tail % n) j)) (ap (λ j. j % n) head_at ∙ e) ∙ s.0 l in
          omega (arith, q)
      | inr (l, e) ↦
          let q =
            ap (λ j. length (span bytes (tail % n) j)) (ap (λ j. j % n) head_at ∙ e) ∙ s.1 l in
          omega (arith, q)
    ]

-- Each load is ahead of the one before it, by less than the buffer.
abbrev pub Ahead : ℕ → List Load → Type 0
Ahead tail [] = Unit
Ahead tail (load ∷ loads) =
    (tail < load.head) × (load.head < tail + length load.bytes) × Ahead load.head loads

abbrev pub total : List (List ℕ) → ℕ
total [] = 0
total (piece ∷ pieces) = length piece + total pieces

abbrev pub last_head : ℕ → List Load → ℕ
last_head tail [] = tail
last_head tail (load ∷ loads) = last_head load.head loads

-- While each load of the head is ahead of the last, by less than the buffer, `read` hands over as many
-- bytes as the head has moved by, and stores the last head as the tail.
pub read_lem :
    (tail : ℕ) (loads : List Load)
    → Ahead tail loads
    → (tail + total (read tail loads).0 ≡ last_head tail loads)
      × ((read tail loads).1 ≡ last_head tail loads)
unfolding read
read_lem tail [] a = (omega arith, refl)
read_lem tail (load ∷ loads) (h, g, a) =
    let (i, j) = read_lem load.head loads a in
    let w = length-window load.bytes tail load.head (omega arith) g in
    rw (behind tail load.head h) (omega (arith, i, w), j)
