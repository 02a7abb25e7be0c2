-- ===== src/Sched/Simulator/RunTime.antt =====
-- How long a dispatched process runs, under each algorithm but MLFQ.
use cmsc125_lab.Base.{
  Option-cases, ℤ, pos, ◌-ℤ◌, ◌≤ℤ◌, ◌<ℤ◌, ℕ, ◌≡◌, refl, ◌≢◌, inl, inr, Bool, arith,
}
use cmsc125_lab.Sched.Algorithms.{
  schedule_fcfs, schedule_sjf, time_until_arrival, schedule_stcf, schedule_rr, schedule,
}
use cmsc125_lab.Sched.EventQueue.{EventQueue, peek_next_arrival}
use cmsc125_lab.Sched.Process.{Process}
use cmsc125_lab.Sched.Simulator.{run_length, scheduled, after_run}
use cmsc125_lab.Sched.State.{SchedulerState, Algorithm, fcfs, sjf, stcf, rr, mlfq}

-- A run takes no more than what remains, makes progress if anything remains, and leaves the
-- subtraction of the run time to the handler.
pub record IsRun (p : Process) (run : ℤ) (p' : Process) : Type 0 where
  pub within : run ≤ℤ p.remaining_time
  pub nonneg : pos 0 ≤ℤ run
  pub progress : pos 0 <ℤ p.remaining_time → pos 0 <ℤ run
  pub unspent : p'.remaining_time ≡ p.remaining_time

schedule_fcfs-IsRun :
    (now : ℤ) (p : Process)
    → pos 0 ≤ℤ p.remaining_time
    → IsRun p (schedule_fcfs now p).0 (schedule_fcfs now p).1
unfolding schedule_fcfs
schedule_fcfs-IsRun now p h = record {
  within = omega arith;
  nonneg = h;
  progress = λ q. q;
  unspent = refl;
}

schedule_sjf-IsRun :
    (now : ℤ) (p : Process)
    → pos 0 ≤ℤ p.remaining_time
    → IsRun p (schedule_sjf now p).0 (schedule_sjf now p).1
unfolding schedule_sjf
schedule_sjf-IsRun now p h = record {
  within = omega arith;
  nonneg = h;
  progress = λ q. q;
  unspent = refl;
}

schedule_rr-IsRun :
    (now quantum : ℤ) (p : Process)
    → pos 0 <ℤ quantum
    → pos 0 ≤ℤ p.remaining_time
    → IsRun p (schedule_rr now quantum p).0 (schedule_rr now quantum p).1
unfolding schedule_rr
schedule_rr-IsRun now quantum p hq h = record {
  within = ground arith;
  nonneg = ground arith;
  progress = λ q. ground arith;
  unspent = ground arith;
}

-- STCF waits for an arrival in the future only.
time_until_arrival_pos :
    (now : ℤ) (q : EventQueue) (p : Process)
    → pos 0 ≤ℤ p.remaining_time
    → (pos 0 ≤ℤ time_until_arrival now q p)
      × (pos 0 <ℤ p.remaining_time → pos 0 <ℤ time_until_arrival now q p)
unfolding time_until_arrival ◌-ℤ◌
time_until_arrival_pos now q p h = elim (Option-cases (peek_next_arrival q)) [
  | inl e ↦ rw (e, time_until_arrival) (h, λ g. g)
  | inr (a, e) ↦ rw (e, time_until_arrival) (ground arith, λ g. ground arith)
]

schedule_stcf-IsRun :
    (now : ℤ) (q : EventQueue) (p : Process)
    → pos 0 ≤ℤ p.remaining_time
    → IsRun p (schedule_stcf now q p).0 (schedule_stcf now q p).1
unfolding schedule_stcf
schedule_stcf-IsRun now q p h =
    let f = time_until_arrival_pos now q p h in
    record {
      within = ground arith;
      nonneg = ground (arith, f.0);
      progress = λ g. ground (arith, f.1 g);
      unspent = ground arith;
    }

-- Under FCFS, SJF, STCF, and RR with a positive quantum, the run time for a process whose remaining
-- time is not negative lies between 0 and that time, and is positive if that time is; the algorithm
-- does not itself change the remaining time.
pub schedule-IsRun :
    (alg : Algorithm) (i : ℕ) (s : SchedulerState)
    → alg ≢ mlfq
    → (alg ≡ rr → pos 0 <ℤ s.quantum_time)
    → pos 0 ≤ℤ (s.processes i).remaining_time
    → IsRun (s.processes i) (run_length alg i s) (scheduled alg i s)
unfolding schedule run_length scheduled
schedule-IsRun fcfs i s h hq hr = schedule_fcfs-IsRun s.current_time (s.processes i) hr
schedule-IsRun sjf i s h hq hr = schedule_sjf-IsRun s.current_time (s.processes i) hr
schedule-IsRun stcf i s h hq hr =
    schedule_stcf-IsRun s.current_time s.event_queue (s.processes i) hr
schedule-IsRun rr i s h hq hr =
    schedule_rr-IsRun s.current_time s.quantum_time (s.processes i) (hq refl) hr
schedule-IsRun mlfq i s h hq hr = absurd (h refl)

pub remaining_time-after_run :
    (safety : Bool) (alg : Algorithm) (i : ℕ) (s : SchedulerState)
    → (after_run safety alg i s).remaining_time
      ≡ (scheduled alg i s).remaining_time -ℤ run_length alg i s
unfolding after_run
remaining_time-after_run safety alg i s = ground arith
