-- ===== src/Scan/Numerals.antt =====
-- Printing a number and scanning it again.
use cmsc125_lab.Base.{
  ltb, ◌==◌, if◌then◌else◌, ltb→lt, Bool-cases, length, length-append, All, ℤ, pos, negsuc, ℕ, zero,
  suc, ◌+◌, ◌-◌, ◌*◌, ◌/◌, ◌%◌, ◌<◌, ◌≡◌, refl, ap, ◌∙◌, inl, inr, true, false, some, List, [], ◌∷◌,
  ◌++◌, arith,
}
use cmsc125_lab.Scan.{
  is_space, is_digit, skip_spaces, scan_digits, scan_natural, minus, with_sign, scan_signed,
  scan_int,
}

-- The decimal digits of `n`, for more fuel than `n`.
unfoldable pub print_digits : ℕ → ℕ → List ℕ
print_digits zero n = []
print_digits (suc fuel) n =
    let front = print_digits fuel (n / 10) in
    if ltb n 10 then (b'0' + n) ∷ [] else front ++ (b'0' + n % 10) ∷ []

unfoldable pub print_natural : ℕ → List ℕ
unfolding print_digits
print_natural n = print_digits (suc n) n

-- `%d` of `printf`.
unfoldable pub print_int : ℤ → List ℕ
unfolding print_natural
print_int (pos n) = print_natural n
print_int (negsuc n) = b'-' ∷ print_natural (suc n)

-- The text does not begin with a digit.
abbrev pub EndsNumber : List ℕ → Type 0
EndsNumber [] = Unit {0}
EndsNumber (c ∷ cs) = is_digit c ≡ false

abbrev pub AllDigits : List ℕ → Type 0
AllDigits = All (λ c. is_digit c ≡ true)

-- The number that digits make after those of `value`.
read_digits : ℕ → List ℕ → ℕ
read_digits value [] = value
read_digits value (c ∷ cs) = read_digits (value * 10 + (c - b'0')) cs

scan_digits-append :
    (value : ℕ) (ds rest : List ℕ)
    → AllDigits ds
    → scan_digits value (ds ++ rest) ≡ scan_digits (read_digits value ds) rest
unfolding scan_digits read_digits
scan_digits-append value [] rest h = refl
scan_digits-append value (c ∷ cs) rest h =
    rw h.0 (scan_digits-append (value * 10 + (c - b'0')) cs rest h.1)

scan_digits-end :
    (value : ℕ) (rest : List ℕ) → EndsNumber rest → scan_digits value rest ≡ (value, rest)
unfolding scan_digits
scan_digits-end value [] h = refl
scan_digits-end value (c ∷ cs) h = rw h refl

read_digits-append :
    (value : ℕ) (ds : List ℕ) (c : ℕ)
    → read_digits value (ds ++ c ∷ []) ≡ read_digits value ds * 10 + (c - b'0')
unfolding read_digits
read_digits-append value [] c = refl
read_digits-append value (d ∷ ds) c = read_digits-append (value * 10 + (d - b'0')) ds c

AllDigits-append :
    (ds : List ℕ) (c : ℕ) → AllDigits ds → is_digit c ≡ true → AllDigits (ds ++ c ∷ [])
AllDigits-append [] c h k = (k, tt)
AllDigits-append (d ∷ ds) c h k = (h.0, AllDigits-append ds c h.1 k)

digit_of : (n : ℕ) → n < 10 → is_digit (b'0' + n) ≡ true
digit_of n h = ground arith

pub print_digits-AllDigits : (fuel n : ℕ) → AllDigits (print_digits fuel n)
unfolding print_digits
print_digits-AllDigits zero n = tt
print_digits-AllDigits (suc fuel) n = elim (Bool-cases (ltb n 10)) [
  | inl e ↦ rw e (digit_of n (ltb→lt n 10 e), tt)
  | inr e ↦ rw e (
      AllDigits-append (print_digits fuel (n / 10)) _ (print_digits-AllDigits fuel (n / 10))
        (digit_of (n % 10) (omega arith)))
]

read_digits-print : (fuel n : ℕ) → n < fuel → read_digits 0 (print_digits fuel n) ≡ n
unfolding print_digits read_digits
read_digits-print zero n h = absurd (omega arith)
read_digits-print (suc fuel) n h = elim (Bool-cases (ltb n 10)) [
  | inl e ↦ rw e (omega arith)
  | inr e ↦ rw e (
      let last = read_digits-append 0 (print_digits fuel (n / 10)) (b'0' + n % 10) in
      let front = read_digits-print fuel (n / 10) (ground arith) in omega arith)
]

-- Some character of a printed number, and what it is not.
StartsNumber : List ℕ → Type 0
StartsNumber [] = ⊥
StartsNumber (c ∷ cs) = is_digit c ≡ true

first_digit : (ds rest : List ℕ) → AllDigits ds → 0 < length ds → StartsNumber (ds ++ rest)
unfolding StartsNumber
first_digit [] rest h k = absurd (omega arith)
first_digit (d ∷ ds) rest h k = h.0

print_digits_some : (fuel n : ℕ) → 0 < fuel → 0 < length (print_digits fuel n)
unfolding print_digits
print_digits_some zero n h = absurd (omega arith)
print_digits_some (suc fuel) n h = elim (Bool-cases (ltb n 10)) [
  | inl e ↦ rw e (omega arith)
  | inr e ↦ rw e (omega (arith, length-append (print_digits fuel (n / 10)) ((b'0' + n % 10) ∷ [])))
]

scan_natural-starts : (s : List ℕ) → StartsNumber s → scan_natural s ≡ some (scan_digits 0 s)
unfolding scan_natural StartsNumber
scan_natural-starts [] h = absurd h
scan_natural-starts (c ∷ cs) h = rw h refl

scan_natural-print :
    (n : ℕ) (rest : List ℕ)
    → EndsNumber rest
    → scan_natural (print_natural n ++ rest) ≡ some (n, rest)
unfolding print_natural
scan_natural-print n rest h =
    let ds = print_digits (suc n) n in
    let all = print_digits-AllDigits (suc n) n in
    scan_natural-starts (ds ++ rest)
      (first_digit ds rest all (print_digits_some (suc n) n (omega arith)))
    ∙ ap some (
        scan_digits-append 0 ds rest all
        ∙ ap (λ v. scan_digits v rest) (read_digits-print (suc n) n (omega arith))
        ∙ scan_digits-end n rest h)

scan_signed-starts : (s : List ℕ) → StartsNumber s → scan_int s ≡ with_sign pos (scan_natural s)
unfolding StartsNumber scan_int skip_spaces scan_signed
scan_signed-starts [] h = absurd h
scan_signed-starts (c ∷ cs) h =
    let space : is_space c ≡ false = ground arith in
    let minus_sign : (c == b'-') ≡ false = ground arith in
    let plus_sign : (c == b'+') ≡ false = ground arith in rw space (rw (minus_sign, plus_sign) refl)

print_natural-starts : (n : ℕ) (rest : List ℕ) → StartsNumber (print_natural n ++ rest)
unfolding print_natural
print_natural-starts n rest =
    first_digit (print_digits (suc n) n) rest (print_digits-AllDigits (suc n) n)
      (print_digits_some (suc n) n (omega arith))

-- A number printed by `%d`, before a text that does not begin with a digit, is scanned by `%d` as
-- that number, and the text is left.
pub scan_int-print_int :
    (n : ℤ) (rest : List ℕ) → EndsNumber rest → scan_int (print_int n ++ rest) ≡ some (n, rest)
unfolding print_int
scan_int-print_int (pos n) rest h =
    scan_signed-starts (print_natural n ++ rest) (print_natural-starts n rest)
    ∙ ap (with_sign pos) (scan_natural-print n rest h)
scan_int-print_int (negsuc n) rest h =
    unfold scan_int in ap (with_sign minus) (scan_natural-print (suc n) rest h)

pub scan_int-space : (s : List ℕ) → scan_int (b' ' ∷ s) ≡ scan_int s
unfolding scan_int skip_spaces
scan_int-space s = refl
