-- ===== src/Sched/Main.antt =====
-- `main` of src/main.c in lab_2/schedsim-2: options, workload, then one simulation or the comparison.
-- `fopen` gives the lines of a file, none for one that does not open. `unset` and `stale` stand for
-- what the variables that `sscanf` fills hold before their first conversion.
mod Tests
use cmsc125_lab.Base.{
  if◌then◌else◌, length, All, ℤ, pos, ℕ, ◌+◌, ◌*◌, ◌<◌, ◌≡◌, refl, ap, ◌∙◌, subst, ◌≢◌, false,
  Option, none, some, List, [], ◌∷◌, ◌++◌,
}
use cmsc125_lab.Sched.Chain.{construct_chain}
use cmsc125_lab.Sched.Compare.{AlgorithmResult, run_comparison}
use cmsc125_lab.Sched.Compare.Runs.{IsFresh, initial_state-IsReady}
use cmsc125_lab.Sched.Options.{
  GivenOption, parse_command_line, CommandLineArguments, Failure, bad_option, no_input,
  workload_missing, outside_array, Setup, failed, chosen, workloads_folder, open_config,
  choose_algorithm, store_of, initial_state,
}
use cmsc125_lab.Sched.Options.Choice.{PairedSetup, choose_algorithm-PairedSetup}
use cmsc125_lab.Sched.Process.{Process}
use cmsc125_lab.Sched.Simulator.{simulate_scheduler}
use cmsc125_lab.Sched.Simulator.Completion.{IsComplete, simulate_scheduler-IsComplete}
use cmsc125_lab.Sched.Simulator.Measure.{left}
use cmsc125_lab.Sched.State.{SchedulerState, Algorithm, mlfq}
use cmsc125_lab.Sched.WaitingQueue.{WaitingQueue, fcfs_queue}
use cmsc125_lab.Sched.Workload.{
  Fields, get_processes_from_string, FileResult, read_all, not_opened, past_array,
  get_processes_from_file,
}

-- The file of MLFQ levels that the comparison asks for.
abbrev pub default_config_path : List ℕ
default_config_path =
    workloads_folder
    ++ b'm' ∷ b'l' ∷ b'f' ∷ b'q' ∷ b'_' ∷ b'c' ∷ b'o' ∷ b'n' ∷ b'f' ∷ b'i' ∷ b'g' ∷ b'.' ∷ b't'
      ∷ b'x' ∷ b't' ∷ []

pub data Workload : Type 0 where
  no_workload : Failure → Workload
  workload : List Process → Workload

unfoldable pub workload_of : FileResult → Workload
workload_of (read_all ps) = workload ps
workload_of not_opened = no_workload workload_missing
workload_of past_array = no_workload outside_array

-- The first test of `main`: a file goes before the processes of the command line.
unfoldable pub read_workload :
    (List ℕ → Option (List (List ℕ))) → Fields → (ℕ → Fields) → CommandLineArguments → Workload
unfolding workload_of
read_workload fopen unset stale a = elim a.input_file [
  | some name ↦ workload_of (get_processes_from_file unset (fopen (workloads_folder ++ name)))
  | none ↦ elim a.process_str [
    | some s ↦ workload (get_processes_from_string stale s)
    | none ↦ no_workload no_input
  ]
]

-- How the program ends: with a message, or after the comparison or the simulation, none where the
-- event loop has not ended.
pub data Ending : Type 0 where
  stops : Failure → Ending
  compares : List (Option AlgorithmResult) → Ending
  simulates : Option SchedulerState → Ending

unfoldable pub simulate_setup : ℕ → List Process → Setup → Ending
simulate_setup fuel ps (failed f) = stops f
simulate_setup fuel ps (chosen alg w quantum) =
    simulates (simulate_scheduler alg fuel (initial_state ps w quantum))

-- The comparison does not look at the queue of the state that it is given, which is NULL there.
unfoldable pub run_workload :
    ℕ → (List ℕ → Option (List (List ℕ))) → CommandLineArguments → Workload → Ending
unfolding simulate_setup
run_workload fuel fopen a (no_workload f) = stops f
run_workload fuel fopen a (workload ps) =
    if a.compare_mode
    then compares (
        run_comparison fuel (open_config fopen default_config_path)
          (initial_state ps (fcfs_queue construct_chain) (pos 0)))
    else simulate_setup fuel ps (choose_algorithm fopen a)

unfoldable pub run_main :
    ℕ → (List ℕ → Option (List (List ℕ))) → Fields → (ℕ → Fields) → List GivenOption → Ending
unfolding run_workload
run_main fuel fopen unset stale os = elim (parse_command_line os) [
  | none ↦ stops bad_option
  | some a ↦ run_workload fuel fopen a (read_workload fopen unset stale a)
]

run_main-chosen :
    (fuel : ℕ) (fopen : List ℕ → Option (List (List ℕ))) (unset : Fields) (stale : ℕ → Fields)
    (os : List GivenOption) (a : CommandLineArguments) (ps : List Process) (c : Setup)
    → parse_command_line os ≡ some a
    → read_workload fopen unset stale a ≡ workload ps
    → a.compare_mode ≡ false
    → choose_algorithm fopen a ≡ c
    → run_main fuel fopen unset stale os ≡ simulate_setup fuel ps c
unfolding run_main run_workload
run_main-chosen fuel fopen unset stale os a ps c parsed given single choice =
    let read : run_main fuel fopen unset stale os
        ≡ run_workload fuel fopen a (read_workload fopen unset stale a) =
      rw (parsed, run_main) refl in
    read
    ∙ ap (run_workload fuel fopen a) given
    ∙ ap
        (λ b.
          if b
          then compares (
              run_comparison fuel (open_config fopen default_config_path)
                (initial_state ps (fcfs_queue construct_chain) (pos 0)))
          else simulate_setup fuel ps (choose_algorithm fopen a))
        single
    ∙ ap (simulate_setup fuel ps) choice

-- `main` with options that name a workload and an algorithm other than MLFQ, without --compare: for
-- fresh processes and enough fuel it runs the simulation to its end, where every process has been
-- served completely and reported.
pub run_main-IsComplete :
    (fuel : ℕ) (fopen : List ℕ → Option (List (List ℕ))) (unset : Fields) (stale : ℕ → Fields)
    (os : List GivenOption) (a : CommandLineArguments) (ps : List Process) (alg : Algorithm)
    (w : WaitingQueue) (quantum : ℤ)
    → parse_command_line os ≡ some a
    → read_workload fopen unset stale a ≡ workload ps
    → a.compare_mode ≡ false
    → choose_algorithm fopen a ≡ chosen alg w quantum
    → alg ≢ mlfq
    → All IsFresh ps
    → 2 * left (store_of ps) (length ps) + 3 * length ps < fuel
    → (t : SchedulerState) × (run_main fuel fopen unset stale os ≡ simulates (some t))
      × IsComplete (initial_state ps w quantum) t
unfolding simulate_setup PairedSetup
run_main-IsComplete fuel fopen unset stale os a ps alg w quantum parsed given single choice other
      fresh h =
    let paired = subst PairedSetup choice (choose_algorithm-PairedSetup fopen a) in
    let (t, e, c) =
      simulate_scheduler-IsComplete fuel (initial_state ps w quantum)
        (initial_state-IsReady alg w quantum ps other paired fresh) (unfold initial_state in h) in
    (
      t,
      run_main-chosen fuel fopen unset stale os a ps (chosen alg w quantum) parsed given single
            choice
          ∙ ap simulates e,
      c,
    )
