-- ===== src/Sched/MlfqConfig/Printing.antt =====
-- A configuration file written from a configuration, and read again.
use mathlib.Core.List.{append-nil, append_assoc}
use cmsc125_lab.Base.{
  leb, if◌then◌else◌, length, replicate, length-append, ℤ, pos, negsuc, ℕ, suc, ◌+◌, ◌-◌, ◌≤◌, ◌≡◌,
  refl, sym, ap, ◌∙◌, subst, fun_ext, Bool, true, false, some, List, [], ◌∷◌, ◌++◌, arith,
}
use cmsc125_lab.Sched.MlfqConfig.{
  MlfqLevel, max_mlfq_levels, MlfqConfig, zero_level, empty_config, LoadResult, loaded, rejected,
  out_of_array, set_level, config_line, go_on, config_lines, validate_mlfq_config, validated,
  load_mlfq_config,
}
use cmsc125_lab.Sched.MlfqConfig.Lines.{
  level_line, config_line-level_line, period_line, config_line-period_line, number_levels,
  level_lines, config_of, print_config, set-append,
}

-- The state of the load after the levels `before`.
filled : List MlfqLevel → ℕ → ℤ → MlfqConfig
filled before room period = record {
  levels = before ++ replicate room zero_level;
  num_levels = length before;
  boost_period = period;
}

longer {ℓ} : {A : Type ℓ} (xs : List A) (x : A) → suc (length xs) ≡ length (xs ++ x ∷ [])
longer xs x = omega (arith, length-append xs (x ∷ []))

set_level-filled :
    (before : List MlfqLevel) (room : ℕ) (q a period : ℤ)
    → length before + suc room ≤ max_mlfq_levels
    → set_level (pos (length before)) q a (filled before (suc room) period)
      ≡ loaded (
          filled
            (before
              ++ record { queue_id = pos (length before); time_quantum = q; allotment = a } ∷ [])
            room
            period)
unfolding set_level filled
set_level-filled before room q a period h =
    let fits : leb max_mlfq_levels (length before) ≡ false = ground arith in
    let grows : leb (length before) (length before) ≡ true = ground arith in
    let l : MlfqLevel = record {
      queue_id = pos (length before);
      time_quantum = q;
      allotment = a;
    } in
    rw fits (
      rw grows (
        rw (set-append before zero_level (replicate room zero_level) l) (
          ap
            (λ n. loaded (record {
              levels = (before ++ l ∷ []) ++ replicate room zero_level;
              num_levels = n;
              boost_period = period;
            }))
            (longer before l))))

abbrev new_level : ℕ → ℤ → ℤ → MlfqLevel
new_level i q a = record { queue_id = pos i; time_quantum = q; allotment = a }

line-filled :
    (before : List MlfqLevel) (i : ℕ) (room : ℕ) (q a period : ℤ)
    → i ≡ length before
    → length before + suc room ≤ max_mlfq_levels
    → config_line (level_line (pos i) q a) (filled before (suc room) period)
      ≡ loaded (filled (before ++ new_level i q a ∷ []) room period)
line-filled before i room q a period e h =
    subst
      (λ k.
        config_line (level_line (pos k) q a) (filled before (suc room) period)
        ≡ loaded (filled (before ++ new_level k q a ∷ []) room period))
      (sym e)
      (config_line-level_line (pos (length before)) q a (filled before (suc room) period)
        ∙ set_level-filled before room q a period h)

config_lines-level_lines :
    (before : List MlfqLevel) (i : ℕ) (ls : List (ℤ × ℤ)) (rest : List (List ℕ)) (room : ℕ)
    (period : ℤ)
    → i ≡ length before
    → length before + (length ls + room) ≤ max_mlfq_levels
    → config_lines (level_lines i ls ++ rest) (filled before (length ls + room) period)
      ≡ config_lines rest (filled (before ++ number_levels i ls) room period)
unfolding level_lines number_levels config_lines
config_lines-level_lines before i [] rest room period e h =
    ap (λ ls. config_lines rest (filled ls (0 + room) period)) (sym (append-nil before))
    ∙ ap (λ n. config_lines rest (filled (before ++ []) n period)) (omega arith)
config_lines-level_lines before i ((q, a) ∷ ls) rest room period e h =
    let l = new_level i q a in
    let line : config_line (level_line (pos i) q a) (filled before (suc (length ls) + room) period)
        ≡ loaded (filled (before ++ l ∷ []) (length ls + room) period) =
      ap (λ n. config_line (level_line (pos i) q a) (filled before n period)) (omega arith)
      ∙ line-filled before i (length ls + room) q a period e (omega arith) in
    let tail =
      config_lines-level_lines (before ++ l ∷ []) (suc i) ls rest room period
        (ap suc e ∙ longer before l) (let n = longer before l in omega arith) in
    ap (λ r. go_on r (config_lines (level_lines (suc i) ls ++ rest))) line
    ∙ tail
    ∙ ap (λ xs. config_lines rest (filled xs room period))
        (append_assoc before (l ∷ []) (number_levels (suc i) ls))

length-number_levels : (i : ℕ) (ls : List (ℤ × ℤ)) → length (number_levels i ls) ≡ length ls
unfolding number_levels
length-number_levels i [] = refl
length-number_levels i ((q, a) ∷ ls) = ap suc (length-number_levels (suc i) ls)

empty_config-filled : (n : ℕ) → n ≡ max_mlfq_levels → empty_config ≡ filled [] n (negsuc 0)
unfolding empty_config filled
empty_config-filled n e = ap (λ (k : ℕ). filled [] k (negsuc 0)) (sym e)

all_lines :
    (ls : List (ℤ × ℤ)) (period : ℤ)
    → length ls ≤ max_mlfq_levels
    → config_lines (print_config ls period) empty_config ≡ loaded (config_of ls period)
unfolding print_config config_of config_lines filled
all_lines ls period h =
    let room = max_mlfq_levels - length ls in
    let numbered = number_levels 0 ls in
    ap (config_lines (level_lines 0 ls ++ period_line period ∷ []))
      (empty_config-filled (length ls + room) (omega arith))
    ∙ config_lines-level_lines [] 0 ls (period_line period ∷ []) room (negsuc 0) refl (omega arith)
    ∙ ap (λ r. go_on r (config_lines []))
        (config_line-period_line period (filled numbered room (negsuc 0)))
    ∙ ap
        (λ n. loaded (record {
          levels = numbered ++ replicate room zero_level;
          num_levels = n;
          boost_period = period;
        }))
        (length-number_levels 0 ls)

-- A configuration of at most ten levels, of which one has a quantum or an allotment, is loaded as it
-- was from the file that describes it.
pub load_mlfq_config-print_config :
    (ls : List (ℤ × ℤ)) (period : ℤ)
    → length ls ≤ max_mlfq_levels
    → validate_mlfq_config (config_of ls period) ≡ true
    → load_mlfq_config (some (print_config ls period)) ≡ loaded (config_of ls period)
unfolding load_mlfq_config
load_mlfq_config-print_config ls period h v =
    ap validated (all_lines ls period h)
    ∙ ap (λ (b : Bool). if b then loaded (config_of ls period) else rejected) v

go_on_assoc :
    (r : LoadResult) (f g : MlfqConfig → LoadResult)
    → go_on (go_on r f) g ≡ go_on r (λ c. go_on (f c) g)
go_on_assoc (loaded c) f g = refl
go_on_assoc rejected f g = refl
go_on_assoc out_of_array f g = refl

config_lines-append :
    (xs ys : List (List ℕ)) (c : MlfqConfig)
    → config_lines (xs ++ ys) c ≡ go_on (config_lines xs c) (config_lines ys)
unfolding config_lines
config_lines-append [] ys c = refl
config_lines-append (x ∷ xs) ys c =
    ap (go_on (config_line x c)) (fun_ext (config_lines-append xs ys))
    ∙ sym (go_on_assoc (config_line x c) (config_lines xs) (config_lines ys))

negative_line :
    (after : List (List ℕ)) (c : MlfqConfig) (n : ℕ) (quantum allotment : ℤ)
    → config_lines (level_line (negsuc n) quantum allotment ∷ after) c ≡ out_of_array
unfolding config_lines
negative_line after c n quantum allotment =
    ap (λ r. go_on r (config_lines after))
      (config_line-level_line (negsuc n) quantum allotment c ∙ (unfold set_level in refl))

-- A queue definition with a negative id, whatever its other numbers, is not refused: in a file whose
-- earlier lines load, it leads to a write before the array of levels.
pub load_mlfq_config-negative_id :
    (before after : List (List ℕ)) (c : MlfqConfig) (n : ℕ) (quantum allotment : ℤ)
    → config_lines before empty_config ≡ loaded c
    → load_mlfq_config (some (before ++ level_line (negsuc n) quantum allotment ∷ after))
      ≡ out_of_array
unfolding load_mlfq_config
load_mlfq_config-negative_id before after c n quantum allotment h = ap validated (
    config_lines-append before _ empty_config
    ∙ ap (λ r. go_on r (config_lines (level_line (negsuc n) quantum allotment ∷ after))) h
    ∙ negative_line after c n quantum allotment)
