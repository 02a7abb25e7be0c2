-- ===== src/Sched/Process.antt =====
-- includes/objects/process.h, includes/objects/event.h, src/objects/process.c and
-- src/objects/event.c of lab_2/schedsim-2. A `Process*` is the index of the process in
-- `state->processes`; `Store` is what those pointers lead to.
use cmsc125_lab.Base.{take, ℤ, pos, negsuc, ℕ, Option, List}

-- PID_LENGTH - 1 characters are kept of a name.
abbrev pub pid_length : ℕ
pid_length = 16

abbrev pub unknown_time : ℤ
unknown_time = negsuc 0

pub record Process : Type 0 where
  pub pid : List ℕ
  pub arrival_time : ℤ
  pub burst_time : ℤ
  pub remaining_time : ℤ
  pub start_time : ℤ
  pub finish_time : ℤ
  pub waiting_time : ℤ
  pub priority : ℤ
  pub time_in_queue : ℤ
  pub turnaround_time : ℤ
  pub response_time : ℤ

unfoldable pub construct_process : List ℕ → ℤ → ℤ → Process
construct_process name arrival burst = record {
  pid = take 15 name;
  arrival_time = arrival;
  burst_time = burst;
  remaining_time = burst;
  start_time = unknown_time;
  finish_time = unknown_time;
  waiting_time = pos 0;
  priority = pos 0;
  time_in_queue = pos 0;
  turnaround_time = pos 0;
  response_time = pos 0;
}

abbrev pub Store : Type 0
Store = ℕ → Process

pub data EventType : Type 0 where
  arrival completion quantum_expire priority_boost : EventType

-- `process` is none for the events that the source constructs with NULL.
pub record Event : Type 0 where
  pub time : ℤ
  pub type : EventType
  pub process : Option ℕ

unfoldable pub construct_event : ℤ → EventType → Option ℕ → Event
construct_event t k p = record { time = t; type = k; process = p }
