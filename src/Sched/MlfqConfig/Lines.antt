-- ===== src/Sched/MlfqConfig/Lines.antt =====
-- The lines of a configuration file written from numbers, and what the loader of src/mlfq-config.c
-- makes of each.
use mathlib.Core.List.{append-nil}
use cmsc125_lab.Base.{
  length, set, replicate, All, ℤ, pos, negsuc, ℕ, suc, ◌-◌, ◌≡◌, refl, sym, ap, ◌∙◌, false, some,
  List, [], ◌∷◌, ◌++◌, arith,
}
use cmsc125_lab.Scan.{scan_int, scan_literal}
use cmsc125_lab.Scan.Numerals.{
  print_natural, print_int, EndsNumber, AllDigits, print_digits-AllDigits, scan_int-print_int,
  scan_int-space,
}
use cmsc125_lab.Sched.MlfqConfig.{
  MlfqLevel, max_mlfq_levels, MlfqConfig, zero_level, loaded, is_newline, chop_before,
  chop_newlines, trim_blanks, scan_level, set_level, set_scanned, queue_line, boost_period_key,
  set_boost_period, boost_line, trimmed_line, config_line,
}

abbrev NoNewline : List ℕ → Type 0
NoNewline = All (λ c. is_newline c ≡ false)

NoNewline-append : (s t : List ℕ) → NoNewline s → NoNewline t → NoNewline (s ++ t)
NoNewline-append [] t h k = k
NoNewline-append (c ∷ s) t h k = (h.0, NoNewline-append s t h.1 k)

AllDigits-NoNewline : (s : List ℕ) → AllDigits s → NoNewline s
AllDigits-NoNewline [] h = tt
AllDigits-NoNewline (c ∷ s) h = ((let d = h.0 in ground arith), AllDigits-NoNewline s h.1)

print_int-NoNewline : (n : ℤ) → NoNewline (print_int n)
unfolding print_int print_natural
print_int-NoNewline (pos n) = AllDigits-NoNewline _ (print_digits-AllDigits (suc n) n)
print_int-NoNewline (negsuc n) =
    (refl, AllDigits-NoNewline _ (print_digits-AllDigits (suc (suc n)) (suc n)))

chop_newlines-line : (s : List ℕ) → NoNewline s → chop_newlines (s ++ 10 ∷ []) ≡ s
unfolding chop_newlines
chop_newlines-line [] h = refl
chop_newlines-line (c ∷ []) h = rw h.0 refl
chop_newlines-line (c ∷ d ∷ s) h = ap (chop_before c) (chop_newlines-line (d ∷ s) h.1)

-- The three numbers of a queue definition, and its line.
pub print_level : ℤ → ℤ → ℤ → List ℕ
print_level id quantum allotment =
    print_int id ++ (b' ' ∷ print_int quantum ++ (b' ' ∷ print_int allotment))

pub level_line : ℤ → ℤ → ℤ → List ℕ
level_line id quantum allotment = (b'Q' ∷ print_level id quantum allotment) ++ 10 ∷ []

scan_int-blank :
    (n : ℤ) (rest : List ℕ)
    → EndsNumber rest
    → scan_int (b' ' ∷ print_int n ++ rest) ≡ some (n, rest)
scan_int-blank n rest h = scan_int-space (print_int n ++ rest) ∙ scan_int-print_int n rest h

scan_int-last : (n : ℤ) → scan_int (b' ' ∷ print_int n) ≡ some (n, [])
scan_int-last n =
    ap (λ s. scan_int (b' ' ∷ s)) (sym (append-nil (print_int n))) ∙ scan_int-blank n [] tt

scan_level-print_level :
    (id quantum allotment : ℤ)
    → scan_level (print_level id quantum allotment) ≡ some (id, quantum, allotment)
unfolding scan_level print_level
scan_level-print_level id quantum allotment =
    rw (scan_int-print_int id (b' ' ∷ print_int quantum ++ (b' ' ∷ print_int allotment)) refl) (
      rw (scan_int-blank quantum (b' ' ∷ print_int allotment) refl)
        (rw (scan_int-last allotment) refl))

print_level-NoNewline : (id quantum allotment : ℤ) → NoNewline (print_level id quantum allotment)
unfolding print_level
print_level-NoNewline id quantum allotment =
    NoNewline-append (print_int id) _ (print_int-NoNewline id) (
      refl,
      NoNewline-append (print_int quantum) _ (print_int-NoNewline quantum)
          (refl, print_int-NoNewline allotment),
    )

pub config_line-level_line :
    (id quantum allotment : ℤ) (c : MlfqConfig)
    → config_line (level_line id quantum allotment) c ≡ set_level id quantum allotment c
unfolding config_line level_line queue_line trimmed_line trim_blanks
config_line-level_line id quantum allotment c =
    rw
      (chop_newlines-line (b'Q' ∷ print_level id quantum allotment)
        (refl, print_level-NoNewline id quantum allotment))
      (ap (λ o. set_scanned o c) (scan_level-print_level id quantum allotment))

pub period_line : ℤ → List ℕ
period_line period = boost_period_key ++ (b' ' ∷ print_int period ++ 10 ∷ [])

period_line-NoNewline : (period : ℤ) → NoNewline (boost_period_key ++ (b' ' ∷ print_int period))
period_line-NoNewline period =
    NoNewline-append boost_period_key (b' ' ∷ print_int period) (ground arith)
      (refl, print_int-NoNewline period)

pub config_line-period_line :
    (period : ℤ) (c : MlfqConfig)
    → config_line (period_line period) c ≡ loaded (record c { boost_period = period })
unfolding config_line period_line trimmed_line trim_blanks boost_line scan_literal
config_line-period_line period c =
    rw
      (chop_newlines-line (boost_period_key ++ (b' ' ∷ print_int period))
        (period_line-NoNewline period))
      (ap (λ o. set_boost_period o c) (scan_int-last period))

-- The levels of a configuration as pairs of a quantum and an allotment, numbered from `i`.
unfoldable pub number_levels : ℕ → List (ℤ × ℤ) → List MlfqLevel
number_levels i [] = []
number_levels i ((q, a) ∷ ls) =
    record { queue_id = pos i; time_quantum = q; allotment = a } ∷ number_levels (suc i) ls

unfoldable pub level_lines : ℕ → List (ℤ × ℤ) → List (List ℕ)
level_lines i [] = []
level_lines i ((q, a) ∷ ls) = level_line (pos i) q a ∷ level_lines (suc i) ls

-- The array holds these levels, and zeros after them.
unfoldable pub config_of : List (ℤ × ℤ) → ℤ → MlfqConfig
config_of ls period = record {
  levels = number_levels 0 ls ++ replicate (max_mlfq_levels - length ls) zero_level;
  num_levels = length ls;
  boost_period = period;
}

unfoldable pub print_config : List (ℤ × ℤ) → ℤ → List (List ℕ)
print_config ls period = level_lines 0 ls ++ period_line period ∷ []

pub set-append {ℓ} :
    {A : Type ℓ} (xs : List A) (y : A) (ys : List A) (v : A)
    → set (xs ++ y ∷ ys) (length xs) v ≡ (xs ++ v ∷ []) ++ ys
set-append [] y ys v = refl
set-append (x ∷ xs) y ys v = ap (λ r. x ∷ r) (set-append xs y ys v)
