-- ===== src/Scan.antt =====
-- What the programs ask of `sscanf` and of their own character loops: the conversions of lab_2 and
-- lab_3 on the characters of a line. A conversion that fails is none; one that succeeds comes with
-- the characters after it. The number that a conversion finds is exact; `to_long` and `to_int` are what
-- a long and an int keep of it.
pub mod Numerals
pub mod Narrowing
use cmsc125_lab.Base.{
  ltb, leb, ◌==◌, if◌then◌else◌, length, ℤ, pos, negsuc, ℕ, zero, suc, ◌+◌, ◌-◌, ◌*◌, ◌%◌, Bool,
  ◌&&◌, ◌||◌, Option, none, some, List, [], ◌∷◌,
}

-- `isspace`.
abbrev pub is_space : ℕ → Bool
is_space c = (c == 32) || (leb 9 c && leb c 13)

abbrev pub is_digit : ℕ → Bool
is_digit c = leb b'0' c && leb c b'9'

unfoldable pub skip_spaces : List ℕ → List ℕ
skip_spaces [] = []
skip_spaces (c ∷ cs) = let rest = skip_spaces cs in if is_space c then rest else c ∷ cs

-- The digits at the start, after those that make `value`.
unfoldable pub scan_digits : ℕ → List ℕ → ℕ × List ℕ
scan_digits value [] = (value, [])
scan_digits value (c ∷ cs) =
    let more = scan_digits (value * 10 + (c - b'0')) cs in
    if is_digit c then more else (value, c ∷ cs)

unfoldable pub scan_natural : List ℕ → Option (ℕ × List ℕ)
unfolding scan_digits
scan_natural [] = none
scan_natural (c ∷ cs) = if is_digit c then some (scan_digits 0 (c ∷ cs)) else none

abbrev pub minus : ℕ → ℤ
minus zero = pos 0
minus (suc n) = negsuc n

abbrev pub with_sign : (ℕ → ℤ) → Option (ℕ × List ℕ) → Option (ℤ × List ℕ)
with_sign sign none = none
with_sign sign (some (n, rest)) = some (sign n, rest)

unfoldable pub scan_signed : List ℕ → Option (ℤ × List ℕ)
unfolding scan_natural
scan_signed [] = none
scan_signed (c ∷ cs) =
    if c == b'-'
    then with_sign minus (scan_natural cs)
    else if c == b'+'
    then with_sign pos (scan_natural cs)
    else with_sign pos (scan_natural (c ∷ cs))

-- `%d`.
unfoldable pub scan_int : List ℕ → Option (ℤ × List ℕ)
unfolding skip_spaces scan_signed
scan_int s = scan_signed (skip_spaces s)

-- The characters before the first that the test stops at, at most `room` of them, and the others.
unfoldable pub scan_until : (ℕ → Bool) → ℕ → List ℕ → List ℕ × List ℕ
scan_until stops zero s = ([], s)
scan_until stops (suc room) [] = ([], [])
scan_until stops (suc room) (c ∷ cs) =
    let (word, rest) = scan_until stops room cs in
    if stops c then ([], c ∷ cs) else (c ∷ word, rest)

abbrev pub not_empty : List ℕ × List ℕ → Option (List ℕ × List ℕ)
not_empty ([], rest) = none
not_empty (c ∷ cs, rest) = some (c ∷ cs, rest)

-- `%s`.
unfoldable pub scan_word : List ℕ → Option (List ℕ × List ℕ)
unfolding skip_spaces scan_until
scan_word s = let t = skip_spaces s in not_empty (scan_until is_space (length t) t)

-- A literal part of a format, and `strncmp(s, prefix, strlen(prefix)) == 0`.
unfoldable pub scan_literal : List ℕ → List ℕ → Option (List ℕ)
scan_literal [] s = some s
scan_literal (p ∷ ps) [] = none
scan_literal (p ∷ ps) (c ∷ cs) = let rest = scan_literal ps cs in if p == c then rest else none

-- LONG_MAX for a long of 64 bits, and the numbers that an int of 32 bits can tell apart.
abbrev pub long_max : ℕ
long_max = 9223372036854775807

abbrev pub int_values : ℕ
int_values = 4294967296

abbrev pub int_max : ℕ
int_max = 2147483647

-- What `strtol` makes of a number: LONG_MAX or LONG_MIN outside the range of long.
unfoldable pub to_long : ℤ → ℤ
to_long (pos n) = if ltb long_max n then pos long_max else pos n
to_long (negsuc n) = if ltb long_max n then negsuc long_max else negsuc n

-- The int with the given 32 bits.
unfoldable pub int_of_bits : ℕ → ℤ
int_of_bits u = if leb u int_max then pos u else negsuc (int_values - 1 - u)

-- A long converted to int: its lowest 32 bits.
unfoldable pub to_int : ℤ → ℤ
unfolding int_of_bits
to_int (pos n) = int_of_bits (n % int_values)
to_int (negsuc n) = int_of_bits (int_values - 1 - n % int_values)
