-- ===== src/Perf/Reader/Reads.antt =====
-- An action reads a value from some bytes: it returns that value, and leaves the reader behind them.
use mathlib.Core.List.{append_assoc, append-nil}
use mathlib.Core.Path.{subst}
use capsule.Prelude.{
  ℕ, zero, suc, ◌+◌, ◌/◌, ◌^◌, ◌<◌, ◌≤◌, List, [], ◌∷◌, ◌++◌, Bool, true, false, if◌then◌else◌,
  length, length-append, take, drop, ◌≡◌, refl, sym, ap, ◌∙◌, arith,
}
use capsule.Prelude.Outcome.{ok}
use capsule.Perf.Reader.{
  Reader, Reading, left, skip, ◌>>=◌, next_of, pure, or_keep, kept, present, full, le_value, uint,
  whole,
}
use capsule.Perf.Decode.RoundTrip.{bytes_of, bound}

-- With `bs` next in the reader, `m` returns `a` and has read `bs`.
pub record Reads {A : Type 0} (m : Reading A) (bs : List ℕ) (a : A) : Type 0 where
  pub runs : (r : Reader) (rest : List ℕ) → left r ≡ bs ++ rest → m r ≡ (ok a, skip (length bs) r)

-- What is left after some bytes.
drop_nil : (m : ℕ) → drop {A = ℕ} m [] ≡ []
drop_nil zero = refl
drop_nil (suc m) = refl

drop-drop : (n m : ℕ) (l : List ℕ) → drop (n + m) l ≡ drop m (drop n l)
drop-drop zero m l = let e : 0 + m ≡ m = omega arith in ap (λ k. drop k l) e
drop-drop (suc n) m [] =
    let e : suc n + m ≡ suc (n + m) = omega arith in ap (λ k. drop k []) e ∙ sym (drop_nil m)
drop-drop (suc n) m (x ∷ l) =
    let e : suc n + m ≡ suc (n + m) = omega arith in ap (λ k. drop k (x ∷ l)) e ∙ drop-drop n m l

drop-append : (bs rest : List ℕ) → drop (length bs) (bs ++ rest) ≡ rest
drop-append [] rest = refl
drop-append (b ∷ bs) rest = drop-append bs rest

take-append : (bs rest : List ℕ) → take (length bs) (bs ++ rest) ≡ bs
take-append [] rest = refl
take-append (b ∷ bs) rest = ap (λ l. b ∷ l) (take-append bs rest)

pub left-skip :
    (r : Reader) (bs rest : List ℕ) → left r ≡ bs ++ rest → left (skip (length bs) r) ≡ rest
left-skip r bs rest h =
    drop-drop r.pos (length bs) r.data_bytes ∙ ap (drop (length bs)) h ∙ drop-append bs rest

module _ {A : Type 0} where
  pub pure-Reads : (a : A) → Reads (pure a) [] a
  unfolding pure
  pure-Reads a = record { runs = λ r rest h. ap (λ p. (ok a, record r { pos = p })) (omega arith) }

  pub or_keep-Reads :
      (d : A) {a : A} {m : Reading A} {bs : List ℕ} → Reads m bs a → Reads (or_keep d m) bs a
  unfolding or_keep kept
  or_keep-Reads d h = record { runs = λ r rest e. rw (h.runs r rest e) }

  pub present-Reads :
      (b : Bool) (d : A) {a : A} {m : Reading A} {bs : List ℕ}
      → Reads m bs a
      → (b ≡ false → a ≡ d)
      → Reads (present b d m) (if b then bs else []) a
  unfolding present
  present-Reads true d h e = h
  present-Reads false d h e = rw (e refl) (pure-Reads d)

  pub maybe-Reads :
      (b : Bool) (d : A) {a : A} {m : Reading A} {bs : List ℕ}
      → Reads m bs a
      → Reads (present b d m) (if b then bs else []) (if b then a else d)
  unfolding present
  maybe-Reads true d h = h
  maybe-Reads false d h = pure-Reads d

  pub absent-Reads : (b : Bool) (d : A) (m : Reading A) → b ≡ false → Reads (present b d m) [] d
  unfolding present
  absent-Reads b d m e = rw (e, present) (pure-Reads d)

module _ {A B : Type 0} where
  -- The rule for a bind: the bytes of both parts, in order.
  pub >>=-Reads :
      {a : A} {b : B} {m : Reading A} (f : A → Reading B) {bs cs : List ℕ}
      → Reads m bs a
      → Reads (f a) cs b
      → Reads (m >>= f) (bs ++ cs) b
  unfolding ◌>>=◌ next_of
  >>=-Reads {a} {b} {m} f {bs} {cs} h k = record {
    runs = λ r rest e.
        let e' : left r ≡ bs ++ (cs ++ rest) = e ∙ append_assoc bs cs rest in
        rw (h.runs r (cs ++ rest) e') (
          k.runs (skip (length bs) r) rest (left-skip r bs (cs ++ rest) e')
          ∙ ap (λ p. (ok b, record r { pos = p })) (omega (arith, length-append bs cs)));
  }

  -- What follows reads nothing more.
  pub ends :
      {a : A} {b : B} {m : Reading A} (f : A → Reading B) {bs : List ℕ}
      → Reads m bs a
      → Reads (f a) [] b
      → Reads (m >>= f) bs b
  ends {b = b} {m = m} f {bs} h k =
      subst (λ l. Reads (m >>= f) l b) (append-nil bs) (>>=-Reads f h k)

  -- The last action of a `do` block that only gives the result.
  pub finish :
      {a : A} {m : Reading A} (f : A → B) {bs : List ℕ}
      → Reads m bs a
      → Reads (m >>= λ x. pure (f x)) bs (f a)
  unfolding ◌>>=◌ next_of pure
  finish f h = record { runs = λ r rest e. rw (h.runs r rest e) }

full_enough :
    (n : ℕ) (r : Reader) → n ≤ length (left r) → full n r ≡ (ok (take n (left r)), skip n r)
unfolding full
full_enough zero r h = ap (λ p. (ok [], record r { pos = p })) (omega arith)
full_enough (suc n) r h = ground arith

pub full-Reads : (bs : List ℕ) → Reads (full (length bs)) bs bs
full-Reads bs = record {
  runs = λ r rest h.
      full_enough (length bs) r (omega (arith, ap length h, length-append bs rest))
      ∙ ap (λ l. (ok l, skip (length bs) r)) (ap (take (length bs)) h ∙ take-append bs rest);
}

pub le_value-bytes_of : (count n : ℕ) → n < bound count → le_value (bytes_of count n) ≡ n
unfolding le_value bytes_of
le_value-bytes_of zero n l = omega arith
le_value-bytes_of (suc count) n l = omega (arith, le_value-bytes_of count (n / 2 ^ 8) (omega arith))

pub length-bytes_of : (count n : ℕ) → length (bytes_of count n) ≡ count
unfolding bytes_of
length-bytes_of zero n = refl
length-bytes_of (suc count) n = ap suc (length-bytes_of count (n / 2 ^ 8))

pub uint-Reads : (count n : ℕ) → n < bound count → Reads (uint count) (bytes_of count n) n
unfolding uint
uint-Reads count n l =
    subst (λ v. Reads (uint count) (bytes_of count n) v) (le_value-bytes_of count n l)
      (finish le_value (
        subst (λ k. Reads (full k) (bytes_of count n) (bytes_of count n)) (length-bytes_of count n)
          (full-Reads (bytes_of count n))))

pub whole-Reads :
    {A : Type 0} {a : A} {m : Reading A} {bs : List ℕ} (n : ℕ)
    → length bs ≡ n
    → Reads m bs a
    → Reads (whole n m) bs a
unfolding whole
whole-Reads {bs = bs} n e h = record {
  runs = λ r rest i.
      rw (whole, full_enough n r (omega (arith, ap length i, length-append bs rest, e)))
        (h.runs r rest i);
}
