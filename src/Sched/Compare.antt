-- ===== src/Sched/Compare.antt =====
-- src/compare.c of lab_2/schedsim-2. The averages are `double`: what is modelled is the sums that they
-- divide. The five tables and charts are output.
pub mod Runs
pub mod Totals
pub mod Switches
use cmsc125_lab.Base.{
  ◌==◌, if◌then◌else◌, ◌>>=◌, replicate, ℤ, pos, negsuc, ◌+ℤ◌, ℕ, zero, suc, ◌+◌, Option, none,
  some, List, [], ◌∷◌,
}
use cmsc125_lab.Sched.Chain.{construct_chain}
use cmsc125_lab.Sched.MlfqConfig.{
  MlfqLevel, MlfqConfig, zero_level, LoadResult, loaded, rejected, out_of_array, load_mlfq_config,
}
use cmsc125_lab.Sched.MlfqQueue.{construct_mlfq_process_queue}
use cmsc125_lab.Sched.Options.{initial_state}
use cmsc125_lab.Sched.Process.{Process, construct_process, Store}
use cmsc125_lab.Sched.RrQueue.{construct_rr_process_queue}
use cmsc125_lab.Sched.Simulator.{simulate_scheduler}
use cmsc125_lab.Sched.State.{GanttEntry, SchedulerState, Algorithm, fcfs, sjf, stcf, rr, mlfq}
use cmsc125_lab.Sched.WaitingQueue.{
  WaitingQueue, fcfs_queue, sjf_queue, stcf_queue, rr_queue, mlfq_queue,
}

unfoldable pub copy_process : Process → Process
copy_process p = record (construct_process p.pid p.arrival_time p.burst_time) {
  remaining_time = p.burst_time;
}

-- The loop of `copy_processes`.
unfoldable pub copy_processes : ℕ → Store → List Process
unfolding copy_process
copy_processes zero ps = []
copy_processes (suc n) ps = copy_process (ps 0) ∷ copy_processes n (λ i. ps (suc i))

unfoldable pub sum_times : (Process → ℤ) → ℕ → Store → ℤ
sum_times time zero ps = pos 0
sum_times time (suc n) ps = sum_times time n ps +ℤ time (ps n)

-- `name[0]`, which is the end of the string for an empty name.
abbrev pub first_letter : List ℕ → ℕ
first_letter [] = 0
first_letter (c ∷ cs) = c

-- The loop of `count_context_switches` after the entry whose name begins with `letter`.
unfoldable pub switches_after : ℕ → List GanttEntry → ℕ
switches_after letter [] = 0
switches_after letter (e ∷ es) =
    (if first_letter e.name == letter then 0 else 1) + switches_after (first_letter e.name) es

unfoldable pub count_context_switches : List GanttEntry → ℕ
unfolding switches_after
count_context_switches [] = 0
count_context_switches (e ∷ es) = switches_after (first_letter e.name) es

pub record AlgorithmResult : Type 0 where
  pub total_turnaround : ℤ
  pub total_waiting : ℤ
  pub total_response : ℤ
  pub context_switches : ℕ

-- `calculate_averages` and `count_context_switches`.
unfoldable pub result_of : SchedulerState → AlgorithmResult
unfolding sum_times count_context_switches
result_of s = record {
  total_turnaround = sum_times (λ p. p.turnaround_time) s.num_processes s.processes;
  total_waiting = sum_times (λ p. p.waiting_time) s.num_processes s.processes;
  total_response = sum_times (λ p. p.response_time) s.num_processes s.processes;
  context_switches = count_context_switches s.gantt;
}

-- One of the five blocks.
unfoldable pub run_one : Algorithm → WaitingQueue → ℤ → ℕ → SchedulerState → Option AlgorithmResult
unfolding copy_processes result_of
run_one alg w quantum fuel base =
    elim (simulate_scheduler alg fuel
      (initial_state (copy_processes base.num_processes base.processes) w quantum)) [
        | none ↦ none
        | some s ↦ some (result_of s)
      ]

abbrev pub fallback_level : ℤ → ℤ → MlfqLevel
fallback_level quantum allotment = record {
  queue_id = pos 0;
  time_quantum = quantum;
  allotment = allotment;
}

-- The configuration for a file that cannot be loaded.
unfoldable pub fallback_config : MlfqConfig
fallback_config = record {
  levels =
      fallback_level (pos 10) (pos 50)
      ∷ fallback_level (pos 30) (pos 150)
      ∷ fallback_level (negsuc 0) (negsuc 0)
      ∷ replicate 7 zero_level;
  num_levels = 3;
  boost_period = pos 200;
}

-- none for a write outside the array of levels.
unfoldable pub config_or_fallback : LoadResult → Option MlfqConfig
unfolding fallback_config
config_or_fallback (loaded c) = some c
config_or_fallback rejected = some fallback_config
config_or_fallback out_of_array = none

unfoldable pub run_mlfq : LoadResult → ℕ → SchedulerState → Option AlgorithmResult
unfolding config_or_fallback run_one
run_mlfq r fuel base = do
  c ← config_or_fallback r
  mq ← construct_mlfq_process_queue c
  run_one mlfq (mlfq_queue mq) (pos 0) fuel base

-- The five results, in the order of the table; `lines` is workloads/mlfq_config.txt.
unfoldable pub run_comparison :
    ℕ → Option (List (List ℕ)) → SchedulerState → List (Option AlgorithmResult)
unfolding run_one run_mlfq
run_comparison fuel lines base =
    run_one fcfs (fcfs_queue construct_chain) (pos 0) fuel base
    ∷ run_one sjf (sjf_queue construct_chain) (pos 0) fuel base
    ∷ run_one stcf (stcf_queue construct_chain) (pos 0) fuel base
    ∷ run_one rr (rr_queue construct_rr_process_queue) (pos 10) fuel base
    ∷ run_mlfq (load_mlfq_config lines) fuel base
    ∷ []
