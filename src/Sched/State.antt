-- ===== src/Sched/State.antt =====
-- includes/scheduler.h, includes/gantt.h, the global `event_queue` of src/simulator.c and
-- `append_gantt_entry` of src/gantt.c, in lab_2/schedsim-2.
use cmsc125_lab.Base.{
  leb, if◌then◌else◌, length, ℤ, pos, ◌+ℤ◌, leb_ℤ, ℕ, Bool, true, false, ◌||◌, Option, List, [],
  ◌∷◌, ◌++◌,
}
use cmsc125_lab.Sched.EventQueue.{EventQueue}
use cmsc125_lab.Sched.Process.{Process, Store}
use cmsc125_lab.Sched.WaitingQueue.{WaitingQueue}

pub record GanttEntry : Type 0 where
  pub name : List ℕ
  pub start : ℤ
  pub end : ℤ

abbrev pub max_processes : ℕ
max_processes = 256

abbrev pub max_gantt_entries : ℕ
max_gantt_entries = 1024

-- `processes` and `num_processes` are the array of processes; `gantt_size` is the length of
-- `gantt`. The event queue, a global variable of the simulator, is a field here.
pub record SchedulerState : Type 0 where
  pub processes : Store
  pub running : Option ℕ
  pub waiting : WaitingQueue
  pub num_processes : ℕ
  pub current_time : ℤ
  pub quantum_time : ℤ
  pub gantt : List GanttEntry
  pub event_queue : EventQueue

-- The global `scheduler`, which points to one of the five functions `schedule_*`.
pub data Algorithm : Type 0 where
  fcfs sjf stcf rr mlfq : Algorithm

abbrev pub sort_by_burst_time : Algorithm → Bool
sort_by_burst_time sjf = true
sort_by_burst_time stcf = true
sort_by_burst_time _ = false

abbrev pub is_mlfq_scheduler : Algorithm → Bool
is_mlfq_scheduler mlfq = true
is_mlfq_scheduler _ = false

-- The entry keeps at most PID_LENGTH - 1 characters of the name.
unfoldable pub append_gantt_entry : List GanttEntry → Process → ℤ → ℤ → List GanttEntry
append_gantt_entry gantt p start_time run_time =
    if leb_ℤ run_time (pos 0) || leb max_gantt_entries (length gantt)
    then gantt
    else gantt ++ record { name = p.pid; start = start_time; end = start_time +ℤ run_time } ∷ []
