-- ===== src/Sched/Options/Errors.antt =====
-- When the options of src/command.c and src/main.c in lab_2/schedsim-2 are refused.
use cmsc125_lab.Base.{
  ◌==◌, Bool-cases, ℤ, pos, ◌≤ℤ◌, leb_ℤ, ℕ, ◌<◌, ◌≡◌, refl, sym, ap, ◌∙◌, ◌≢◌, ◌↔◌, ◌⊎◌, inl, inr,
  Bool, true, false, ◌&&◌, Option, none, some, List, [], ◌∷◌, map, arith,
}
use cmsc125_lab.Sched.MlfqConfig.{
  MlfqConfig, LoadResult, loaded, rejected, out_of_array, load_mlfq_config,
}
use cmsc125_lab.Sched.MlfqConfig.Loading.{LoadsUsable, load_mlfq_config-LoadsUsable}
use cmsc125_lab.Sched.MlfqQueue.{construct_mlfq_process_queue}
use cmsc125_lab.Sched.Options.{
  GivenOption, unknown_option, read_options, parse_command_line, CommandLineArguments,
  algorithm_option, processes_option, input_option, quantum_option, config_option, compare_option,
  no_arguments, to_lower, same_letters, algorithm_named, Failure, bad_option, invalid_algorithm,
  bad_quantum, config_missing, config_not_loaded, outside_array, Setup, failed, chosen, choose_rr,
  queue_of_config, queue_of_loaded, open_config, choose_mlfq, choose_for, choose_algorithm,
}
use cmsc125_lab.Sched.RrQueue.{construct_rr_process_queue}
use cmsc125_lab.Sched.State.{Algorithm, fcfs, sjf, stcf, rr, mlfq}
use cmsc125_lab.Sched.WaitingQueue.{WaitingQueue, rr_queue}

unfoldable pub has_unknown : List GivenOption → Bool
has_unknown [] = false
has_unknown (unknown_option ∷ os) = true
has_unknown (_ ∷ os) = has_unknown os

read_options-known :
    (os : List GivenOption) (a : CommandLineArguments)
    → has_unknown os ≡ false
    → (b : CommandLineArguments) × (read_options os a ≡ some b)
unfolding read_options has_unknown
read_options-known [] a h = (a, refl)
read_options-known (algorithm_option s ∷ os) a h = read_options-known os _ h
read_options-known (processes_option s ∷ os) a h = read_options-known os _ h
read_options-known (input_option s ∷ os) a h = read_options-known os _ h
read_options-known (quantum_option s ∷ os) a h = read_options-known os _ h
read_options-known (config_option s ∷ os) a h = read_options-known os _ h
read_options-known (compare_option ∷ os) a h = read_options-known os _ h
read_options-known (unknown_option ∷ os) a h = absurd (ground (arith, h))

read_options-unknown :
    (os : List GivenOption) (a : CommandLineArguments)
    → has_unknown os ≡ true
    → read_options os a ≡ none
unfolding read_options has_unknown
read_options-unknown [] a h = absurd (ground (arith, h))
read_options-unknown (algorithm_option s ∷ os) a h = read_options-unknown os _ h
read_options-unknown (processes_option s ∷ os) a h = read_options-unknown os _ h
read_options-unknown (input_option s ∷ os) a h = read_options-unknown os _ h
read_options-unknown (quantum_option s ∷ os) a h = read_options-unknown os _ h
read_options-unknown (config_option s ∷ os) a h = read_options-unknown os _ h
read_options-unknown (compare_option ∷ os) a h = read_options-unknown os _ h
read_options-unknown (unknown_option ∷ os) a h = refl

is_some-none : (o : Option CommandLineArguments) (b : CommandLineArguments) → o ≡ some b → o ≢ none
is_some-none o b e h = ground (arith, e, h)

-- An option that `getopt_long` does not know stops the program wherever it stands, and nothing else does.
pub parse_command_line-refuses :
    (os : List GivenOption) → (parse_command_line os ≡ none) ↔ (has_unknown os ≡ true)
unfolding parse_command_line
parse_command_line-refuses os = (
  λ e. elim (Bool-cases (has_unknown os)) [
    | inl u ↦ u
    | inr k ↦
        let (b, f) = read_options-known os no_arguments k in
        absurd (is_some-none (read_options os no_arguments) b f e)
  ],
  λ u. read_options-unknown os no_arguments u,
)

-- The five names, as README.md of lab_2/schedsim-2 spells them.
abbrev pub spelled : Algorithm → List ℕ
spelled fcfs = b'F' ∷ b'C' ∷ b'F' ∷ b'S' ∷ []
spelled sjf = b'S' ∷ b'J' ∷ b'F' ∷ []
spelled stcf = b'S' ∷ b'T' ∷ b'C' ∷ b'F' ∷ []
spelled rr = b'R' ∷ b'R' ∷ []
spelled mlfq = b'M' ∷ b'L' ∷ b'F' ∷ b'Q' ∷ []

-- The text names the algorithm, whatever the case of its letters.
abbrev pub Names : List ℕ → Algorithm → Type 0
Names name alg = map to_lower name ≡ map to_lower (spelled alg)

same_number : (a b : ℕ) → (a == b) ≡ true → a ≡ b
same_number a b h = ground arith

head_and_tail : (b c : Bool) → (b && c) ≡ true → (b ≡ true) × (c ≡ true)
head_and_tail b c h = ground arith

same_letters-lower : (s t : List ℕ) → same_letters s t ≡ true → map to_lower s ≡ map to_lower t
unfolding same_letters
same_letters-lower [] [] h = refl
same_letters-lower [] (d ∷ t) h = absurd (ground (arith, h))
same_letters-lower (c ∷ s) [] h = absurd (ground (arith, h))
same_letters-lower (c ∷ s) (d ∷ t) h =
    let (x, y) = head_and_tail (to_lower c == to_lower d) (same_letters s t) h in
    let e = same_number (to_lower c) (to_lower d) x in
    ap (λ (n : ℕ). n ∷ map to_lower s) e
    ∙ ap (λ (l : List ℕ). to_lower d ∷ l) (same_letters-lower s t y)

both : (a b : ℕ) (c : Bool) → a ≡ b → c ≡ true → ((a == b) && c) ≡ true
both a b c e h = ground arith

same_cons : (a b : ℕ) (s t : List ℕ) → ◌≡◌ {A = List ℕ} (a ∷ s) (b ∷ t) → (a ≡ b) × (s ≡ t)
same_cons a b s t e = (cc, cc)

lower-same_letters : (s t : List ℕ) → map to_lower s ≡ map to_lower t → same_letters s t ≡ true
unfolding same_letters
lower-same_letters [] [] h = refl
lower-same_letters [] (d ∷ t) h = absurd (cc)
lower-same_letters (c ∷ s) [] h = absurd (cc)
lower-same_letters (c ∷ s) (d ∷ t) h =
    let (x, y) = same_cons (to_lower c) (to_lower d) (map to_lower s) (map to_lower t) h in
    both (to_lower c) (to_lower d) (same_letters s t) x (lower-same_letters s t y)

-- A comparison that fails is with a name that the text is not.
other_name : (name t : List ℕ) → same_letters name t ≡ false → map to_lower name ≢ map to_lower t
other_name name t h e = let s = lower-same_letters name t e in ground (arith, h, s)

-- `algorithm_named` finds the algorithm that is named, and none only if none is.
abbrev NamedBy : List ℕ → Option Algorithm → Type 0
NamedBy name none = (alg : Algorithm) → ¬ Names name alg
NamedBy name (some alg) = Names name alg

named-NamedBy : (name : List ℕ) → NamedBy name (algorithm_named name)
unfolding algorithm_named
named-NamedBy name = elim (Bool-cases (same_letters name (map to_lower (spelled fcfs)))) [
  | inl e ↦ rw e (same_letters-lower name _ e)
  | inr f ↦ rw f (elim (Bool-cases (same_letters name (map to_lower (spelled sjf)))) [
    | inl e ↦ rw e (same_letters-lower name _ e)
    | inr j ↦ rw j (elim (Bool-cases (same_letters name (map to_lower (spelled stcf)))) [
      | inl e ↦ rw e (same_letters-lower name _ e)
      | inr c ↦ rw c (elim (Bool-cases (same_letters name (map to_lower (spelled rr)))) [
        | inl e ↦ rw e (same_letters-lower name _ e)
        | inr r ↦ rw r (elim (Bool-cases (same_letters name (map to_lower (spelled mlfq)))) [
          | inl e ↦ rw e (same_letters-lower name _ e)
          | inr m ↦ rw m (nothing_named f j c r m)
        ])
      ])
    ])
  ])
]
  where
    nothing_named :
        same_letters name (map to_lower (spelled fcfs)) ≡ false
        → same_letters name (map to_lower (spelled sjf)) ≡ false
        → same_letters name (map to_lower (spelled stcf)) ≡ false
        → same_letters name (map to_lower (spelled rr)) ≡ false
        → same_letters name (map to_lower (spelled mlfq)) ≡ false
        → (alg : Algorithm) → ¬ Names name alg
    nothing_named f j c r m fcfs = other_name name _ f
    nothing_named f j c r m sjf = other_name name _ j
    nothing_named f j c r m stcf = other_name name _ c
    nothing_named f j c r m rr = other_name name _ r
    nothing_named f j c r m mlfq = other_name name _ m

-- The ways in which a file of levels fails.
abbrev pub BadLevels : (List ℕ → Option (List (List ℕ))) → Option (List ℕ) → Failure → Type 0
BadLevels fopen file f =
    ((f ≡ config_missing) × (file ≡ none))
    ⊎ ((path : List ℕ) × (file ≡ some path)
        × (((f ≡ config_not_loaded) × (load_mlfq_config (open_config fopen path) ≡ rejected))
            ⊎ ((f ≡ outside_array) × (load_mlfq_config (open_config fopen path) ≡ out_of_array))))

-- Why a choice of the algorithm is refused, as a condition on its name, the options and the file of
-- levels.
abbrev pub Refusal :
    (List ℕ → Option (List (List ℕ))) → CommandLineArguments → List ℕ → Failure → Type 0
Refusal fopen a name f =
    ((f ≡ invalid_algorithm) × ((alg : Algorithm) → ¬ Names name alg))
    ⊎ ((Names name rr × (f ≡ bad_quantum) × (a.quantum ≤ℤ pos 0))
        ⊎ (Names name mlfq × BadLevels fopen a.mlfq_config_file f))

failure_of : Setup → Failure
failure_of (failed f) = f
failure_of (chosen alg w quantum) = bad_option

is_failed : Setup → Bool
is_failed (failed f) = true
is_failed (chosen alg w quantum) = false

chosen_fails :
    {A : Type 0} (alg : Algorithm) (w : WaitingQueue) (q : ℤ) (f : Failure)
    → chosen alg w q ≡ failed f
    → A
unfolding is_failed
chosen_fails alg w q f e = absurd (let b = ap is_failed e in ground (arith, b))

rr-Refusal : (q : ℤ) (f : Failure) → choose_rr q ≡ failed f → (f ≡ bad_quantum) × (q ≤ℤ pos 0)
unfolding choose_rr failure_of
rr-Refusal q f e = elim (Bool-cases (leb_ℤ q (pos 0))) [
  | inl low ↦ (sym (ap failure_of (rw low at e)), ground (arith, low))
  | inr high ↦ chosen_fails rr (rr_queue construct_rr_process_queue) q f (rw high at e)
]

-- A configuration with levels always gets its queue.
usable_queue : (c : MlfqConfig) (f : Failure) → 0 < c.num_levels → queue_of_config c ≢ failed f
unfolding queue_of_config construct_mlfq_process_queue is_failed
usable_queue c f h e =
    let some_level : (c.num_levels == 0) ≡ false = ground arith in
    let b = ap is_failed e in ground (arith, some_level, b)

loaded-Refusal :
    (r : LoadResult) (f : Failure)
    → LoadsUsable r
    → queue_of_loaded r ≡ failed f
    → ((f ≡ config_not_loaded) × (r ≡ rejected)) ⊎ ((f ≡ outside_array) × (r ≡ out_of_array))
unfolding queue_of_loaded LoadsUsable failure_of
loaded-Refusal (loaded c) f usable e = absurd (usable_queue c f usable.some_level e)
loaded-Refusal rejected f usable e = inl (sym (ap failure_of e), refl)
loaded-Refusal out_of_array f usable e = inr (sym (ap failure_of e), refl)

mlfq-Refusal :
    (fopen : List ℕ → Option (List (List ℕ))) (o : Option (List ℕ)) (f : Failure)
    → choose_mlfq fopen o ≡ failed f
    → BadLevels fopen o f
unfolding choose_mlfq failure_of
mlfq-Refusal fopen none f e = inl (sym (ap failure_of e), refl)
mlfq-Refusal fopen (some path) f e =
    let loads = load_mlfq_config-LoadsUsable (open_config fopen path) in
    inr (path, refl, loaded-Refusal (load_mlfq_config (open_config fopen path)) f loads e)

choose_for-Refusal :
    (fopen : List ℕ → Option (List (List ℕ))) (a : CommandLineArguments) (name : List ℕ)
    (o : Option Algorithm) (f : Failure)
    → NamedBy name o
    → choose_for fopen a o ≡ failed f
    → Refusal fopen a name f
unfolding choose_for failure_of
choose_for-Refusal fopen a name none f named e = inl (sym (ap failure_of e), named)
choose_for-Refusal fopen a name (some fcfs) f named e = chosen_fails _ _ _ f e
choose_for-Refusal fopen a name (some sjf) f named e = chosen_fails _ _ _ f e
choose_for-Refusal fopen a name (some stcf) f named e = chosen_fails _ _ _ f e
choose_for-Refusal fopen a name (some rr) f named e =
    let (bad, low) = rr-Refusal a.quantum f e in inr (inl (named, bad, low))
choose_for-Refusal fopen a name (some mlfq) f named e =
    inr (inr (named, mlfq-Refusal fopen a.mlfq_config_file f e))

-- A choice with a name fails only in these ways: the name is, but for the case of its letters, none of
-- FCFS, SJF, STCF, RR and MLFQ; it is RR, and the quantum is not positive; it is MLFQ, and there is no
-- file of levels, or one that the loader rejects, or one that makes it write outside the array of levels.
pub choose_algorithm-Refusal :
    (fopen : List ℕ → Option (List (List ℕ))) (a : CommandLineArguments) (name : List ℕ)
    (f : Failure)
    → a.algorithm_name ≡ some name
    → choose_algorithm fopen a ≡ failed f
    → Refusal fopen a name f
unfolding choose_algorithm
choose_algorithm-Refusal fopen a name f given e =
    choose_for-Refusal fopen a name (algorithm_named name) f (named-NamedBy name)
      (rw (given, choose_algorithm) at e)
