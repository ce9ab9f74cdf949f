-- ===== src/Perf/Attr/Flags.antt =====
-- The word of flags that `EventAttr.write` of pkg/sys/perf/types.go assembles, as a binary number.
use Prim.Native.Nat.{max, digits, bit_or, bit_or-bitwise}
use capsule.Prelude.{
  ℕ, zero, suc, ◌+◌, ◌*◌, ◌/◌, ◌%◌, ◌^◌, ◌≤◌, ◌<◌, List, [], ◌∷◌, length, Bool, true, false, ◌≡◌,
  refl, ap, ◌∙◌, arith,
}
use capsule.Perf.Attr.{EventAttr, flag, low_flags, high_flags, has}

or_digits_fuel :
    (n m a b : ℕ) → a ≤ n → a ≤ m → digits (λ y. y) max n a b ≡ digits (λ y. y) max m a b
or_digits_fuel zero zero a b p q = refl
or_digits_fuel zero (suc m) zero b p q = refl
or_digits_fuel zero (suc m) (suc a) b p q = absurd (omega arith)
or_digits_fuel (suc n) zero zero b p q = refl
or_digits_fuel (suc n) zero (suc a) b p q = absurd (omega arith)
or_digits_fuel (suc n) (suc m) zero b p q = refl
or_digits_fuel (suc n) (suc m) (suc a) b p q =
    rw (or_digits_fuel n m (suc a / 2) (b / 2) (omega arith) (omega arith))

zero-bit_or : (b : ℕ) → bit_or 0 b ≡ b
zero-bit_or b = bit_or-bitwise 0 b

lowest_digit : (a b : ℕ) → bit_or a b ≡ bit_or (a / 2) (b / 2) * 2 + max (a % 2) (b % 2)
lowest_digit zero b = omega (arith, zero-bit_or b, zero-bit_or (b / 2))
lowest_digit (suc a) b = omega (
  arith,
  bit_or-bitwise (suc a) b,
  bit_or-bitwise (suc a / 2) (b / 2),
  or_digits_fuel a (suc a / 2) (suc a / 2) (b / 2) (omega arith) (omega arith),
)

power-suc : (k : ℕ) → 2 ^ suc k ≡ 2 * 2 ^ k
power-suc k = omega arith

half_power : (k : ℕ) → 2 ^ suc k / 2 ≡ 2 ^ k
half_power k = omega (arith, power-suc k)

-- A bit above the others is added to them.
bit_or-power : (k x : ℕ) → x < 2 ^ k → bit_or x (2 ^ k) ≡ x + 2 ^ k
bit_or-power zero x h = let e : x ≡ 0 = omega arith in rw e refl
bit_or-power (suc k) x h = omega (
  arith,
  lowest_digit x (2 ^ suc k),
  ap (bit_or (x / 2)) (half_power k),
  power-suc k,
  bit_or-power k (x / 2) (omega (arith, power-suc k)),
)

abbrev pub digit : Bool → ℕ
digit true = 1
digit false = 0

-- The number of some binary digits, the lowest first.
abbrev pub number_of : List Bool → ℕ
number_of [] = 0
number_of (b ∷ bs) = digit b + 2 * number_of bs

pub number_below : (bs : List Bool) → number_of bs < 2 ^ length bs
number_below [] = omega arith
number_below (true ∷ bs) = omega (arith, number_below bs, power-suc (length bs))
number_below (false ∷ bs) = omega (arith, number_below bs, power-suc (length bs))

flag_lem : (b : Bool) (k x : ℕ) → x < 2 ^ k → flag b k x ≡ x + digit b * 2 ^ k
unfolding flag
flag_lem true k x h = bit_or-power k x h ∙ omega arith
flag_lem false k x h = omega arith

-- The flags from the bit `k` on, each set behind those before it.
flags_from : ℕ → List Bool → ℕ → ℕ
flags_from k [] x = x
flags_from k (b ∷ bs) x = flags_from (suc k) bs (flag b k x)

flag_below : (b : Bool) (k x : ℕ) → x < 2 ^ k → flag b k x < 2 ^ suc k
flag_below true k x h = omega (arith, flag_lem true k x h, power-suc k)
flag_below false k x h = omega (arith, flag_lem false k x h, power-suc k)

flags_from_lem :
    (k : ℕ) (bs : List Bool) (x : ℕ) → x < 2 ^ k → flags_from k bs x ≡ x + 2 ^ k * number_of bs
unfolding flags_from
flags_from_lem k [] x h = omega arith
flags_from_lem k (b ∷ bs) x h =
    flags_from_lem (suc k) bs (flag b k x) (flag_below b k x h)
    ∙ rw (flag_lem b k x h, power-suc k) (grind arith)

-- The flags in the order of the kernel's bits. The eighth is that of `exclusive_idle`; the sixteenth
-- and the seventeenth are those of `precise_ip`.
abbrev pub flags_of : EventAttr → List Bool
flags_of ea =
    ea.disabled
    ∷ ea.inherit
    ∷ ea.pinned
    ∷ ea.exclusive
    ∷ ea.exclusive_user
    ∷ ea.exclusive_kernel
    ∷ ea.exclusive_hv
    ∷ false
    ∷ ea.mmap
    ∷ ea.comm
    ∷ ea.freq
    ∷ ea.inherit_stat
    ∷ ea.enable_on_exec
    ∷ ea.task
    ∷ ea.watermark
    ∷ has ea.precise_ip 1
    ∷ has ea.precise_ip 2
    ∷ ea.mmap_data
    ∷ ea.sample_id_all
    ∷ ea.exclude_host
    ∷ ea.exclude_guest
    ∷ ea.exclude_callchain_kernel
    ∷ ea.exclude_callchain_user
    ∷ ea.mmap2
    ∷ ea.comm_exec
    ∷ ea.use_clock_id
    ∷ ea.context_switch
    ∷ []

in_turn : (ea : EventAttr) → high_flags ea (low_flags ea) ≡ flags_from 0 (flags_of ea) 0
unfolding high_flags low_flags flags_from flag
in_turn ea = refl

pub high_flags-low_flags : (ea : EventAttr) → high_flags ea (low_flags ea) ≡ number_of (flags_of ea)
high_flags-low_flags ea =
    in_turn ea
    ∙ flags_from_lem 0 (flags_of ea) 0 (omega arith)
    ∙ zero_plus (number_of (flags_of ea))
  where
    zero_plus : (n : ℕ) → 0 + 2 ^ 0 * n ≡ n
    zero_plus n = omega arith
