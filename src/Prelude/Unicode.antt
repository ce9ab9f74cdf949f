-- ===== src/Prelude/Unicode.antt =====
-- Text as Go reads it: the runes of a UTF-8 string, and the classes of package `unicode`.
use capsule.Prelude.{ℕ, ◌+◌, ◌*◌, ◌%◌, List, [], ◌∷◌, Bool, ◌&&◌, ltb, leb, if◌then◌else◌}

-- The tables of `unicode.IsLetter` and `unicode.IsDigit`, which the program only consults.
pub record Unicode : Type 0 where
  pub is_letter : ℕ → Bool
  pub is_digit : ℕ → Bool

-- What an invalid byte decodes to.
abbrev pub rune_error : ℕ
rune_error = 0xfffd

abbrev between : ℕ → ℕ → ℕ → Bool
between lo hi c = leb lo c && leb c hi

abbrev continuation : ℕ → Bool
continuation c = between 0x80 0xbf c

-- The range of the second byte that rules out overlong forms, surrogates and runes past 0x10ffff.
abbrev second_ok : ℕ → ℕ → Bool
second_ok a b =
    between (if between 0xe0 0xe0 a then 0xa0 else if between 0xf0 0xf0 a then 0x90 else 0x80)
      (if between 0xed 0xed a then 0x9f else if between 0xf4 0xf4 a then 0x8f else 0xbf) b

-- `range` over a string: an invalid byte is one rune and the loop goes on behind it.
unfoldable pub runes : List ℕ → List ℕ
runes [] = []
runes (a ∷ []) = (if ltb a 0x80 then a else rune_error) ∷ []
runes (a ∷ b ∷ []) =
    let behind = runes (b ∷ []) in
    if ltb a 0x80
    then a ∷ behind
    else if between 0xc2 0xdf a && continuation b
    then (a % 32 * 64 + b % 64) ∷ []
    else rune_error ∷ behind
runes (a ∷ b ∷ c ∷ []) =
    let one = runes (b ∷ c ∷ []) in
    let two = runes (c ∷ []) in
    if ltb a 0x80
    then a ∷ one
    else if between 0xc2 0xdf a && continuation b
    then (a % 32 * 64 + b % 64) ∷ two
    else if between 0xe0 0xef a && second_ok a b && continuation c
    then (a % 16 * 4096 + b % 64 * 64 + c % 64) ∷ []
    else rune_error ∷ one
runes (a ∷ b ∷ c ∷ d ∷ s) =
    let one = runes (b ∷ c ∷ d ∷ s) in
    let two = runes (c ∷ d ∷ s) in
    let three = runes (d ∷ s) in
    let four = runes s in
    if ltb a 0x80
    then a ∷ one
    else if between 0xc2 0xdf a && continuation b
    then (a % 32 * 64 + b % 64) ∷ two
    else if between 0xe0 0xef a && second_ok a b && continuation c
    then (a % 16 * 4096 + b % 64 * 64 + c % 64) ∷ three
    else if between 0xf0 0xf4 a && second_ok a b && continuation c && continuation d
    then (a % 8 * 262144 + b % 64 * 4096 + c % 64 * 64 + d % 64) ∷ four
    else rune_error ∷ one
