-- ===== src/Sched/Main/Tests.antt =====
-- The command line `-p A:0:3;B:1:2 -a RR -q 2`, and examples of the theorems on src/main.c and
-- src/compare.c of lab_2/schedsim-2.
use cmsc125_lab.Base.{
  length, All, pos, ℕ, zero, suc, ◌≡◌, refl, false, Option, none, some, List, [], ◌∷◌, ◌++◌, map,
  arith,
}
use cmsc125_lab.Scan.{scan_int, scan_until, scan_literal}
use cmsc125_lab.Sched.Chain.{construct_chain}
use cmsc125_lab.Sched.Compare.{AlgorithmResult, run_comparison}
use cmsc125_lab.Sched.Compare.Runs.{IsFresh, bursts, HasTimes}
use cmsc125_lab.Sched.Compare.Totals.{AddsUp, is_mlfq-false, run_comparison-AddsUp}
use cmsc125_lab.Sched.Main.{workload, read_workload, simulates, run_main, run_main-IsComplete}
use cmsc125_lab.Sched.Options.{
  GivenOption, parse_command_line, CommandLineArguments, algorithm_option, processes_option,
  quantum_option, no_arguments, scan_quantum, bad_quantum, failed, chosen, choose_algorithm,
  store_of, initial_state,
}
use cmsc125_lab.Sched.Options.Choice.{PairedSetup, choose_algorithm-PairedSetup}
use cmsc125_lab.Sched.Options.Errors.{Refusal, choose_algorithm-Refusal}
use cmsc125_lab.Sched.Process.{Process, construct_process}
use cmsc125_lab.Sched.RrQueue.{construct_rr_process_queue}
use cmsc125_lab.Sched.Simulator.Completion.{IsComplete}
use cmsc125_lab.Sched.Simulator.Measure.{left}
use cmsc125_lab.Sched.State.{SchedulerState, rr}
use cmsc125_lab.Sched.WaitingQueue.{fcfs_queue, rr_queue}
use cmsc125_lab.Sched.Workload.{Fields, scan_item, process_of, get_processes_from_string}
use cmsc125_lab.Sched.Workload.Printing.{print_items, IsName, get_processes_from_string-print_items}

abbrev no_file : List ℕ → Option (List (List ℕ))
no_file path = none

abbrev blank_fields : Fields
blank_fields = record { name_field = []; arrival_field = pos 0; burst_field = pos 0 }

abbrev two_items : List ℕ
two_items = b'A' ∷ b':' ∷ b'0' ∷ b':' ∷ b'3' ∷ b';' ∷ b'B' ∷ b':' ∷ b'1' ∷ b':' ∷ b'2' ∷ []

abbrev rr_line : List GivenOption
rr_line =
    processes_option two_items
    ∷ algorithm_option (b'R' ∷ b'R' ∷ [])
    ∷ quantum_option (b'2' ∷ [])
    ∷ []

abbrev rr_arguments : CommandLineArguments
rr_arguments = record {
  algorithm_name = some (b'R' ∷ b'R' ∷ []);
  process_str = some two_items;
  input_file = none;
  quantum = pos 2;
  mlfq_config_file = none;
  compare_mode = false;
}

abbrev two_processes : List Process
two_processes =
    construct_process (b'A' ∷ []) (pos 0) (pos 3)
    ∷ construct_process (b'B' ∷ []) (pos 1) (pos 2)
    ∷ []

rr_line-parsed : parse_command_line rr_line ≡ some rr_arguments
unfolding parse_command_line scan_quantum scan_int
rr_line-parsed = refl

two_items-read :
    read_workload no_file blank_fields (λ i. blank_fields) rr_arguments ≡ workload two_processes
unfolding read_workload get_processes_from_string scan_int scan_item scan_until scan_literal
two_items-read = refl

rr-chosen :
    choose_algorithm no_file rr_arguments ≡ chosen rr (rr_queue construct_rr_process_queue) (pos 2)
unfolding choose_algorithm
rr-chosen = refl

two_processes-IsFresh : All IsFresh two_processes
unfolding construct_process
two_processes-IsFresh = (
  record { arrival_nonneg = omega arith; burst_nonneg = omega arith; nothing_spent = refl },
  (record { arrival_nonneg = omega arith; burst_nonneg = omega arith; nothing_spent = refl }, tt),
)

two_processes-left : left (store_of two_processes) 2 ≡ 5
unfolding left store_of construct_process
two_processes-left = refl

run_main-IsComplete_example :
    (t : SchedulerState) × (run_main 17 no_file blank_fields (λ i. blank_fields) rr_line
      ≡ simulates (some t))
    × IsComplete (initial_state two_processes (rr_queue construct_rr_process_queue) (pos 2)) t
run_main-IsComplete_example =
    run_main-IsComplete 17 no_file blank_fields (λ i. blank_fields) rr_line rr_arguments
      two_processes rr (rr_queue construct_rr_process_queue) (pos 2) rr_line-parsed two_items-read
      refl rr-chosen (is_mlfq-false rr refl) two_processes-IsFresh
      (omega (arith, two_processes-left))

abbrev base_state : SchedulerState
base_state = initial_state two_processes (fcfs_queue construct_chain) (pos 0)

base_state-HasTimes : (a : ℕ) → HasTimes (base_state.processes a)
unfolding initial_state store_of construct_process
base_state-HasTimes zero = (omega arith, omega arith)
base_state-HasTimes (suc zero) = (omega arith, omega arith)
base_state-HasTimes (suc (suc a)) = (omega arith, omega arith)

base_state-bursts : bursts base_state.num_processes base_state.processes ≡ 5
unfolding bursts initial_state store_of construct_process
base_state-bursts = refl

run_comparison-AddsUp_example :
    (rs : List AlgorithmResult) × (last : Option AlgorithmResult) × (run_comparison 17 none
        base_state
      ≡ map some rs ++ last ∷ [])
    × (length rs ≡ 4)
    × All (AddsUp base_state) rs
unfolding initial_state
run_comparison-AddsUp_example =
    run_comparison-AddsUp 17 none base_state base_state-HasTimes (omega (arith, base_state-bursts))

choose_algorithm-PairedSetup_example : PairedSetup (choose_algorithm no_file rr_arguments)
choose_algorithm-PairedSetup_example = choose_algorithm-PairedSetup no_file rr_arguments

-- The options --algorithm=Rr alone.
abbrev rr_alone : CommandLineArguments
unfolding no_arguments
rr_alone = record no_arguments { algorithm_name = some (b'R' ∷ b'r' ∷ []) }

rr_without_quantum : choose_algorithm no_file rr_alone ≡ failed bad_quantum
unfolding choose_algorithm no_arguments
rr_without_quantum = refl

choose_algorithm-Refusal_example : Refusal no_file rr_alone (b'R' ∷ b'r' ∷ []) bad_quantum
unfolding no_arguments
choose_algorithm-Refusal_example =
    choose_algorithm-Refusal no_file rr_alone (b'R' ∷ b'r' ∷ []) bad_quantum refl rr_without_quantum

-- The quantum of --quantum=4294967301 is the 5 that an int keeps.
narrowed_quantum_test :
    scan_quantum (b'4' ∷ b'2' ∷ b'9' ∷ b'4' ∷ b'9' ∷ b'6' ∷ b'7' ∷ b'3' ∷ b'0' ∷ b'1' ∷ []) ≡ pos 5
unfolding scan_quantum scan_int
narrowed_quantum_test = refl

abbrev two_fields : List Fields
two_fields =
    record { name_field = b'A' ∷ []; arrival_field = pos 0; burst_field = pos 3 }
    ∷ record { name_field = b'B' ∷ b'2' ∷ []; arrival_field = pos 12; burst_field = pos 20 }
    ∷ []

two_fields-IsName : All (λ (f : Fields). IsName f.name_field) two_fields
two_fields-IsName = (
  record { some_letter = omega arith; fits = omega arith; plain = ((refl, refl), tt) },
  (
    record {
      some_letter = omega arith;
      fits = omega arith;
      plain = ((refl, refl), ((refl, refl), tt));
    },
    tt,
  ),
)

get_processes_from_string-print_items_example :
    get_processes_from_string (λ i. blank_fields) (print_items two_fields)
    ≡ map process_of two_fields
get_processes_from_string-print_items_example =
    get_processes_from_string-print_items (λ i. blank_fields) two_fields two_fields-IsName
      (omega arith)
