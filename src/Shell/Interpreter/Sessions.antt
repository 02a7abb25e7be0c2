-- ===== src/Shell/Interpreter/Sessions.antt =====
-- The table of background jobs through the rounds of the shell, lab_1/mysh.c.
use cmsc125_lab.Base.{
  ltb, if◌then◌else◌, Bool-cases, length, length-append, All, ℕ, zero, suc, ◌≤◌, ◌<◌, ◌≡◌, refl,
  subst, inl, inr, Bool, true, false, Option, none, some, List, [], ◌∷◌, ◌++◌, map, arith,
}
use cmsc125_lab.Shell.Command.{Token, Command, first_token, get_command}
use cmsc125_lab.Shell.Interpreter.{
  started, Kernel, Round, shell_exits, returns, Builtin, exits, not_builtin, a_builtin,
  handles_builtin, waited, run_parent, after_fork, after_builtin, interpreter, shell_round,
  run_shell,
}
use cmsc125_lab.Shell.Jobs.{
  max_bg_jobs, BackgroundJob, copy_command, record_job, last_of, all_but_last, move_last,
  clean_from, cleanup_background_jobs,
}
use cmsc125_lab.Shell.Jobs.Cleanup.{length-clean_from}

-- An entry as `interpreter` writes it: for a command with &, whose `command` is its first argument.
pub record IsEntry (j : BackgroundJob) : Type 0 where
  pub in_background : j.job_command.background ≡ true
  pub named_by_first : j.job_command.command ≡ first_token j.job_command.args

-- The table has at most its 128 entries, each of them in order.
pub record TableOk (jobs : List BackgroundJob) : Type 0 where
  pub within_table : length jobs ≤ max_bg_jobs
  pub entries : All IsEntry jobs

last_of-IsEntry :
    (j : BackgroundJob) (js : List BackgroundJob)
    → IsEntry j
    → All IsEntry js
    → IsEntry (last_of j js)
last_of-IsEntry j [] e all = e
last_of-IsEntry j (k ∷ js) e (f, all) = last_of-IsEntry k js f all

all_but_last-IsEntry :
    (j : BackgroundJob) (js : List BackgroundJob)
    → IsEntry j
    → All IsEntry js
    → All IsEntry (all_but_last j js)
all_but_last-IsEntry j [] e all = tt
all_but_last-IsEntry j (k ∷ js) e (f, all) = (e, all_but_last-IsEntry k js f all)

move_last-IsEntry : (js : List BackgroundJob) → All IsEntry js → All IsEntry (move_last js)
unfolding move_last
move_last-IsEntry [] all = tt
move_last-IsEntry (j ∷ js) (e, all) = (last_of-IsEntry j js e all, all_but_last-IsEntry j js e all)

clean_from-IsEntry :
    (finished : ℕ → Bool) (fuel : ℕ) (jobs : List BackgroundJob)
    → All IsEntry jobs
    → All IsEntry (clean_from finished fuel jobs)
unfolding clean_from
clean_from-IsEntry finished zero jobs all = all
clean_from-IsEntry finished (suc fuel) [] all = tt
clean_from-IsEntry finished (suc fuel) (j ∷ js) (e, all) = elim (Bool-cases (finished j.job_pid)) [
  | inl done ↦ rw done (clean_from-IsEntry finished fuel (move_last js) (move_last-IsEntry js all))
  | inr runs ↦ rw runs (e, clean_from-IsEntry finished fuel js all)
]

cleaned-TableOk :
    (finished : ℕ → Bool) (jobs : List BackgroundJob)
    → TableOk jobs
    → TableOk (cleanup_background_jobs finished jobs)
unfolding cleanup_background_jobs
cleaned-TableOk finished jobs ok = record {
  within_table =
      let fewer = length-clean_from finished (length jobs) jobs in
      let few = ok.within_table in omega arith;
  entries = clean_from-IsEntry finished (length jobs) jobs ok.entries;
}

All-append :
    (js : List BackgroundJob) (j : BackgroundJob)
    → All IsEntry js
    → IsEntry j
    → All IsEntry (js ++ j ∷ [])
All-append [] j all e = (e, tt)
All-append (k ∷ js) j (f, all) e = (f, All-append js j all e)

record_job-TableOk :
    (pid : ℕ) (c : Command) (jobs : List BackgroundJob)
    → c.background ≡ true
    → TableOk jobs
    → TableOk (record_job pid c jobs)
unfolding record_job copy_command
record_job-TableOk pid c jobs b ok = elim (Bool-cases (ltb (length jobs) max_bg_jobs)) [
  | inl e ↦ rw e (record {
    within_table =
        let room : length jobs < max_bg_jobs = ground (arith, e) in
        omega (
          arith,
          room,
          length-append jobs (record { job_pid = pid; job_command = copy_command c } ∷ []),
        );
    entries = All-append jobs _ ok.entries (record { in_background = b; named_by_first = refl });
  })
  | inr e ↦ rw e ok
]

RoundOk : Round → Type 0
RoundOk shell_exits = Unit {0}
RoundOk (returns status messages jobs) = TableOk jobs

if-RoundOk :
    (b : Bool) (r q : Round)
    → (b ≡ true → RoundOk r)
    → (b ≡ false → RoundOk q)
    → RoundOk (if b then r else q)
if-RoundOk true r q h k = h refl
if-RoundOk false r q h k = k refl

run_parent-RoundOk :
    (k : Kernel) (pid : ℕ) (c : Command) (jobs : List BackgroundJob)
    → TableOk jobs
    → RoundOk (run_parent k pid c jobs)
unfolding run_parent RoundOk
run_parent-RoundOk k pid c jobs ok =
    if-RoundOk c.background (returns 0 (started pid c jobs) (record_job pid c jobs))
      (returns 0 (waited (k.exit_code pid)) jobs) (λ b. record_job-TableOk pid c jobs b ok)
      (λ b. ok)

after_fork-RoundOk :
    (k : Kernel) (o : Option ℕ) (c : Command) (jobs : List BackgroundJob)
    → TableOk jobs
    → RoundOk (after_fork k o c jobs)
unfolding after_fork RoundOk
after_fork-RoundOk k none c jobs ok = ok
after_fork-RoundOk k (some pid) c jobs ok = run_parent-RoundOk k pid c jobs ok

after_builtin-RoundOk :
    (k : Kernel) (b : Builtin) (c : Command) (jobs : List BackgroundJob)
    → TableOk jobs
    → RoundOk (after_builtin k b c jobs)
unfolding after_builtin RoundOk
after_builtin-RoundOk k exits c jobs ok = tt
after_builtin-RoundOk k (a_builtin (status, message)) c jobs ok = ok
after_builtin-RoundOk k not_builtin c jobs ok = after_fork-RoundOk k k.forked c jobs ok

interpreter-RoundOk :
    (k : Kernel) (c : Command) (jobs : List BackgroundJob)
    → TableOk jobs
    → RoundOk (interpreter k c jobs)
unfolding interpreter
interpreter-RoundOk k c jobs ok = by_name c.command
  where
    by_name :
        (o : Option Token)
        → RoundOk (elim o [
          | none ↦ returns 0 [] jobs
          | some name ↦ after_builtin k (handles_builtin k name c.args) c jobs
        ])
    by_name none = unfold RoundOk in ok
    by_name (some name) = after_builtin-RoundOk k (handles_builtin k name c.args) c jobs ok

TableOkOr : Option (List BackgroundJob) → Type 0
TableOkOr none = Unit {0}
TableOkOr (some jobs) = TableOk jobs

-- The induction step after a round, whose hypothesis is `ih`.
after_round-TableOkOr :
    (rounds : List (Kernel × Option (List ℕ))) (r : Round)
    → ((jobs : List BackgroundJob) → TableOk jobs → TableOkOr (run_shell rounds jobs))
    → RoundOk r
    → TableOkOr
        (elim r [ shell_exits ↦ none | returns status messages jobs ↦ run_shell rounds jobs ])
unfolding RoundOk TableOkOr
after_round-TableOkOr rounds shell_exits ih ok = tt
after_round-TableOkOr rounds (returns status messages jobs) ih ok = ih jobs ok

run_shell-TableOkOr :
    (rounds : List (Kernel × Option (List ℕ))) (jobs : List BackgroundJob)
    → TableOk jobs
    → TableOkOr (run_shell rounds jobs)
unfolding run_shell shell_round TableOkOr
run_shell-TableOkOr [] jobs ok = ok
run_shell-TableOkOr ((k, line) ∷ rounds) jobs ok =
    after_round-TableOkOr rounds _ (run_shell-TableOkOr rounds)
      (interpreter-RoundOk k (get_command line) _ (cleaned-TableOk k.has_finished jobs ok))

-- Whatever lines are typed and whatever the system answers: as long as the shell runs, its table has at
-- most 128 entries, each for a command that was given with & and is named by its first argument.
pub run_shell-TableOk :
    (rounds : List (Kernel × Option (List ℕ))) (jobs : List BackgroundJob)
    → run_shell rounds [] ≡ some jobs
    → TableOk jobs
unfolding TableOkOr
run_shell-TableOk rounds jobs e =
    subst TableOkOr e
      (run_shell-TableOkOr rounds [] (record { within_table = omega arith; entries = tt }))

-- At the end of the input `get_command` returns an empty command, and the shell goes round without end:
-- any number of rounds that find no line leave it running.
pub run_shell-at_end :
    (ks : List Kernel) (jobs : List BackgroundJob)
    → (jobs' : List BackgroundJob) × (run_shell (map (λ k. (k, none)) ks) jobs ≡ some jobs')
unfolding run_shell shell_round interpreter get_command
run_shell-at_end [] jobs = (jobs, refl)
run_shell-at_end (k ∷ ks) jobs = run_shell-at_end ks (cleanup_background_jobs k.has_finished jobs)
