-- ===== src/Sched/Options.antt =====
-- src/main.c and src/command.c of lab_2/schedsim-2. What `getopt_long` returns for each option is a
-- list of options; a string that was not given is none. `fopen` stands for `fopen`.
pub mod Choice
pub mod Errors
use cmsc125_lab.Base.{
  leb, ◌==◌, if◌then◌else◌, length, ℤ, pos, leb_ℤ, ℕ, zero, suc, ◌+◌, Bool, true, false, ◌&&◌,
  Option, none, some, List, [], ◌∷◌, ◌++◌,
}
use cmsc125_lab.Scan.{scan_int, to_long, to_int}
use cmsc125_lab.Sched.Chain.{construct_chain}
use cmsc125_lab.Sched.EventQueue.{construct_event_queue}
use cmsc125_lab.Sched.MlfqConfig.{
  MlfqConfig, LoadResult, loaded, rejected, out_of_array, load_mlfq_config,
}
use cmsc125_lab.Sched.MlfqQueue.{construct_mlfq_process_queue}
use cmsc125_lab.Sched.Process.{Process, construct_process, Store}
use cmsc125_lab.Sched.RrQueue.{construct_rr_process_queue}
use cmsc125_lab.Sched.State.{SchedulerState, Algorithm, fcfs, sjf, stcf, rr, mlfq}
use cmsc125_lab.Sched.WaitingQueue.{
  WaitingQueue, fcfs_queue, sjf_queue, stcf_queue, rr_queue, mlfq_queue,
}

pub record CommandLineArguments : Type 0 where
  pub algorithm_name : Option (List ℕ)
  pub process_str : Option (List ℕ)
  pub input_file : Option (List ℕ)
  pub quantum : ℤ
  pub mlfq_config_file : Option (List ℕ)
  pub compare_mode : Bool

-- One answer of `getopt_long`, with `optarg`.
pub data GivenOption : Type 0 where
  algorithm_option processes_option input_option quantum_option config_option : List ℕ → GivenOption
  compare_option unknown_option : GivenOption

unfoldable pub no_arguments : CommandLineArguments
no_arguments = record {
  algorithm_name = none;
  process_str = none;
  input_file = none;
  quantum = pos 0;
  mlfq_config_file = none;
  compare_mode = false;
}

-- `(int)strtol(optarg, &endptr, 10)`: 0 without a number.
unfoldable pub scan_quantum : List ℕ → ℤ
unfolding to_int to_long
scan_quantum s = elim (scan_int s) [ none ↦ pos 0 | some (n, rest) ↦ to_int (to_long n) ]

-- The loop of `parse_command_line`; none for `exit(1)`.
unfoldable pub read_options : List GivenOption → CommandLineArguments → Option CommandLineArguments
unfolding scan_quantum
read_options [] a = some a
read_options (algorithm_option s ∷ os) a = read_options os (record a { algorithm_name = some s })
read_options (processes_option s ∷ os) a = read_options os (record a { process_str = some s })
read_options (input_option s ∷ os) a = read_options os (record a { input_file = some s })
read_options (quantum_option s ∷ os) a = read_options os (record a { quantum = scan_quantum s })
read_options (config_option s ∷ os) a = read_options os (record a { mlfq_config_file = some s })
read_options (compare_option ∷ os) a = read_options os (record a { compare_mode = true })
read_options (unknown_option ∷ os) a = none

unfoldable pub parse_command_line : List GivenOption → Option CommandLineArguments
unfolding read_options no_arguments
parse_command_line os = read_options os no_arguments

abbrev pub to_lower : ℕ → ℕ
to_lower c = if leb b'A' c && leb c b'Z' then c + 32 else c

-- `strcasecmp(s, t) == 0`.
unfoldable pub same_letters : List ℕ → List ℕ → Bool
same_letters [] [] = true
same_letters [] (d ∷ ds) = false
same_letters (c ∷ cs) [] = false
same_letters (c ∷ cs) (d ∷ ds) = (to_lower c == to_lower d) && same_letters cs ds

-- The algorithm that the chain of comparisons names.
unfoldable pub algorithm_named : List ℕ → Option Algorithm
unfolding same_letters
algorithm_named s =
    if same_letters s (b'f' ∷ b'c' ∷ b'f' ∷ b's' ∷ [])
    then some fcfs
    else if same_letters s (b's' ∷ b'j' ∷ b'f' ∷ [])
    then some sjf
    else if same_letters s (b's' ∷ b't' ∷ b'c' ∷ b'f' ∷ [])
    then some stcf
    else if same_letters s (b'r' ∷ b'r' ∷ [])
    then some rr
    else if same_letters s (b'm' ∷ b'l' ∷ b'f' ∷ b'q' ∷ [])
    then some mlfq
    else none

-- The messages before `exit(1)`, and the writes outside an array.
pub data Failure : Type 0 where
  bad_option no_input no_algorithm invalid_algorithm bad_quantum config_missing config_not_loaded :
      Failure
  workload_missing outside_array : Failure

-- What is chosen: the algorithm, its queue and `state.quantum_time`.
pub data Setup : Type 0 where
  failed : Failure → Setup
  chosen : Algorithm → WaitingQueue → ℤ → Setup

unfoldable pub choose_rr : ℤ → Setup
choose_rr q =
    if leb_ℤ q (pos 0)
    then failed bad_quantum
    else chosen rr (rr_queue construct_rr_process_queue) q

-- The constructor refuses only a configuration without levels, which the loader has rejected.
unfoldable pub queue_of_config : MlfqConfig → Setup
queue_of_config c = elim (construct_mlfq_process_queue c) [
  | none ↦ failed config_not_loaded
  | some mq ↦ chosen mlfq (mlfq_queue mq) (pos 0)
]

unfoldable pub queue_of_loaded : LoadResult → Setup
unfolding queue_of_config
queue_of_loaded (loaded c) = queue_of_config c
queue_of_loaded rejected = failed config_not_loaded
queue_of_loaded out_of_array = failed outside_array

-- The characters of workloads/.
abbrev pub workloads_folder : List ℕ
workloads_folder = b'w' ∷ b'o' ∷ b'r' ∷ b'k' ∷ b'l' ∷ b'o' ∷ b'a' ∷ b'd' ∷ b's' ∷ b'/' ∷ []

-- `load_mlfq_config` looks in the folder of workloads first. It keeps 255 characters of that path, which
-- no name is expected to exceed.
unfoldable pub open_config : (List ℕ → Option (List (List ℕ))) → List ℕ → Option (List (List ℕ))
open_config fopen path = elim (fopen (workloads_folder ++ path)) [
  | none ↦ fopen path
  | some lines ↦ some lines
]

unfoldable pub choose_mlfq : (List ℕ → Option (List (List ℕ))) → Option (List ℕ) → Setup
unfolding queue_of_loaded open_config
choose_mlfq fopen none = failed config_missing
choose_mlfq fopen (some path) = queue_of_loaded (load_mlfq_config (open_config fopen path))

unfoldable pub choose_for :
    (List ℕ → Option (List (List ℕ))) → CommandLineArguments → Option Algorithm → Setup
unfolding choose_rr choose_mlfq
choose_for fopen a none = failed invalid_algorithm
choose_for fopen a (some fcfs) = chosen fcfs (fcfs_queue construct_chain) (pos 0)
choose_for fopen a (some sjf) = chosen sjf (sjf_queue construct_chain) (pos 0)
choose_for fopen a (some stcf) = chosen stcf (stcf_queue construct_chain) (pos 0)
choose_for fopen a (some rr) = choose_rr a.quantum
choose_for fopen a (some mlfq) = choose_mlfq fopen a.mlfq_config_file

unfoldable pub choose_algorithm : (List ℕ → Option (List (List ℕ))) → CommandLineArguments → Setup
unfolding choose_for algorithm_named
choose_algorithm fopen a = elim a.algorithm_name [
  | none ↦ failed no_algorithm
  | some name ↦ choose_for fopen a (algorithm_named name)
]

-- `state->processes`; beyond `num_processes` the pointers are NULL and nothing reads them.
unfoldable pub store_of : List Process → Store
store_of [] i = construct_process [] (pos 0) (pos 0)
store_of (p ∷ ps) zero = p
store_of (p ∷ ps) (suc i) = store_of ps i

-- `SchedulerState state = {0}` with the processes, the queue and the quantum.
unfoldable pub initial_state : List Process → WaitingQueue → ℤ → SchedulerState
unfolding store_of construct_event_queue
initial_state ps w quantum = record {
  processes = store_of ps;
  running = none;
  waiting = w;
  num_processes = length ps;
  current_time = pos 0;
  quantum_time = quantum;
  gantt = [];
  event_queue = construct_event_queue;
}
