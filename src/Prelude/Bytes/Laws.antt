-- ===== src/Prelude/Bytes/Laws.antt =====
-- What the functions on strings decide.
use mathlib.Core.List.{append-nil}
use capsule.Prelude.{
  ℕ, zero, suc, ◌+◌, ◌-◌, List, [], ◌∷◌, ◌++◌, Bool, true, ◌&&◌, ◌==◌, leb, length, take, drop, ◌≡◌,
  refl, sym, ap, ◌∙◌, ◌↔◌, inl, inr, arith, length-append, take-append-drop, Bool-cases,
}
use capsule.Prelude.Bytes.{bytes_eq, has_prefix, has_suffix, contains, slice}
use capsule.Prelude.Outcome.{ok}

and_split : (a b : Bool) → (a && b) ≡ true → (a ≡ true) × (b ≡ true)
and_split a b h = ground arith

eq_of_bytes_eq : (s t : List ℕ) → bytes_eq s t ≡ true → s ≡ t
unfolding bytes_eq
eq_of_bytes_eq [] [] h = refl
eq_of_bytes_eq [] (y ∷ ys) h = cc
eq_of_bytes_eq (x ∷ xs) [] h = cc
eq_of_bytes_eq (x ∷ xs) (y ∷ ys) h = ground (arith, eq_of_bytes_eq xs ys)

pub bytes_eq_self : (s : List ℕ) → bytes_eq s s ≡ true
unfolding bytes_eq
bytes_eq_self [] = refl
bytes_eq_self (x ∷ xs) = ground (arith, bytes_eq_self xs)

pub bytes_eq_iff : (s t : List ℕ) → (bytes_eq s t ≡ true) ↔ (s ≡ t)
bytes_eq_iff s t = (eq_of_bytes_eq s t, λ e. rw e (bytes_eq_self t))

prefix_rest : (s p : List ℕ) → has_prefix s p ≡ true → (r : List ℕ) × (s ≡ p ++ r)
unfolding has_prefix
prefix_rest s [] h = (s, refl)
prefix_rest [] (y ∷ ys) h = cc
prefix_rest (x ∷ xs) (y ∷ ys) h =
    let (p, q) = and_split (x == y) _ h in let (r, e) = prefix_rest xs ys q in (r, ground arith)

pub has_prefix-append : (p r : List ℕ) → has_prefix (p ++ r) p ≡ true
unfolding has_prefix
has_prefix-append [] [] = refl
has_prefix-append [] (x ∷ r) = refl
has_prefix-append (x ∷ p) r = ground (arith, has_prefix-append p r)

pub has_prefix_iff : (s p : List ℕ) → (has_prefix s p ≡ true) ↔ ((r : List ℕ) × (s ≡ p ++ r))
has_prefix_iff s p = (prefix_rest s p, λ h. rw h.1 (has_prefix-append p h.0))

drop-append : (a b : List ℕ) (n : ℕ) → n ≡ length a → drop n (a ++ b) ≡ b
drop-append [] b zero e = refl
drop-append [] b (suc n) e = absurd (omega arith)
drop-append (x ∷ a) b zero e = absurd (omega arith)
drop-append (x ∷ a) b (suc n) e = drop-append a b n (omega arith)

suffix_rest : (s p : List ℕ) → has_suffix s p ≡ true → (r : List ℕ) × (s ≡ r ++ p)
unfolding has_suffix
suffix_rest s p h =
    let (_, q) = and_split (leb (length p) (length s)) _ h in
    let n : ℕ = length s - length p in
    (take n s, sym (take-append-drop n s) ∙ ap (λ t. take n s ++ t) (eq_of_bytes_eq _ _ q))

pub has_suffix-append : (r p : List ℕ) → has_suffix (r ++ p) p ≡ true
unfolding has_suffix
has_suffix-append r p =
    rw
      (
        drop-append r p (length (r ++ p) - length p) (omega (arith, length-append r p)),
        bytes_eq_self p,
      )
      (ground (arith, length-append r p))

pub has_suffix_iff : (s p : List ℕ) → (has_suffix s p ≡ true) ↔ ((r : List ℕ) × (s ≡ r ++ p))
has_suffix_iff s p = (suffix_rest s p, λ h. rw h.1 (has_suffix-append h.0 p))

abbrev Within : List ℕ → List ℕ → Type 0
Within s p = (a : List ℕ) × (b : List ℕ) × (s ≡ a ++ (p ++ b))

contains_parts : (s p : List ℕ) → contains s p ≡ true → Within s p
unfolding contains
contains_parts [] p h = let (r, e) = prefix_rest [] p h in ([], r, e)
contains_parts (x ∷ xs) p h = elim (Bool-cases (has_prefix (x ∷ xs) p)) [
  | inl q ↦ let (r, e) = prefix_rest (x ∷ xs) p q in ([], r, e)
  | inr q ↦ let (a, b, e) = contains_parts xs p (rw q at h) in (x ∷ a, b, ap (λ t. x ∷ t) e)
]

contains_within : (a p b : List ℕ) → contains (a ++ (p ++ b)) p ≡ true
unfolding contains
contains_within [] [] [] = has_prefix-append [] []
contains_within [] [] (y ∷ b) = rw (has_prefix-append [] (y ∷ b))
contains_within [] (x ∷ p) b = rw (has_prefix-append (x ∷ p) b)
contains_within (x ∷ a) p b = rw (contains_within a p b) (ground arith)

pub contains_iff : (s p : List ℕ) → (contains s p ≡ true) ↔ Within s p
contains_iff s p = (contains_parts s p, λ h. rw h.2 (contains_within h.0 p h.1))

take_part : (m b : List ℕ) (n : ℕ) → n ≡ length m → take n (m ++ b) ≡ m
take_part [] b zero e = refl
take_part [] b (suc n) e = absurd (omega arith)
take_part (x ∷ m) b zero e = absurd (omega arith)
take_part (x ∷ m) b (suc n) e = ap (λ t. x ∷ t) (take_part m b n (omega arith))

-- A slice at the ends of a part cuts that part out.
pub slice_part :
    {E : Type 0} (w m b : List ℕ) (i j : ℕ)
    → i ≡ length w
    → j ≡ length w + length m
    → slice {E = E} (w ++ (m ++ b)) i j ≡ ok m
unfolding slice
slice_part w m b i j p q =
    rw (in_range, drop-append w (m ++ b) i p, take_part m b (j - i) (omega arith))
  where
    in_range : (leb i j && leb j (length (w ++ (m ++ b)))) ≡ true
    in_range = ground (arith, length-append w (m ++ b), length-append m b)

pub slice_tail :
    {E : Type 0} (w m : List ℕ) (i j : ℕ)
    → i ≡ length w
    → j ≡ length w + length m
    → slice {E = E} (w ++ m) i j ≡ ok m
slice_tail {E} w m i j p q = rw append-nil at (slice_part {E = E} w m [] i j p q)
