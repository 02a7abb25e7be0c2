-- ===== src/Sched/Simulator/SameJobs.antt =====
-- What the parts of the handlers of src/simulator.c leave of each process.
use cmsc125_lab.Base.{
  ◌==◌, Bool-cases, update, ℕ, ◌≡◌, refl, ◌∙◌, subst, inl, inr, Bool, Option, none, some, arith,
}
use cmsc125_lab.Sched.Algorithms.{
  schedule_fcfs, schedule_sjf, schedule_stcf, schedule_rr, schedule_mlfq, schedule,
}
use cmsc125_lab.Sched.MlfqQueue.{admit, mlfq_enqueue}
use cmsc125_lab.Sched.Process.{Process, Store}
use cmsc125_lab.Sched.Simulator.{
  scheduled, after_run, dispatch, enqueue_waiting, dispatch_taken, dispatch_next,
}
use cmsc125_lab.Sched.State.{SchedulerState, Algorithm, fcfs, sjf, stcf, rr, mlfq}
use cmsc125_lab.Sched.WaitingQueue.{
  WaitingQueue, fcfs_queue, sjf_queue, stcf_queue, rr_queue, mlfq_queue, queue_size, enqueue,
  dequeue,
}

pub record SameJob (p q : Process) : Type 0 where
  pub same_pid : q.pid ≡ p.pid
  pub same_arrival : q.arrival_time ≡ p.arrival_time
  pub same_burst : q.burst_time ≡ p.burst_time

pub record Keeps (s t : SchedulerState) : Type 0 where
  pub jobs : (a : ℕ) → SameJob (s.processes a) (t.processes a)
  pub same_number : t.num_processes ≡ s.num_processes

pub SameJob-refl : (p : Process) → SameJob p p
SameJob-refl p = record { same_pid = refl; same_arrival = refl; same_burst = refl }

SameJob-trans : {p q r : Process} → SameJob p q → SameJob q r → SameJob p r
SameJob-trans a b = record {
  same_pid = b.same_pid ∙ a.same_pid;
  same_arrival = b.same_arrival ∙ a.same_arrival;
  same_burst = b.same_burst ∙ a.same_burst;
}

pub Keeps-refl : (s : SchedulerState) → Keeps s s
Keeps-refl s = record { jobs = λ a. SameJob-refl (s.processes a); same_number = refl }

pub Keeps-trans : {s t u : SchedulerState} → Keeps s t → Keeps t u → Keeps s u
Keeps-trans a b = record {
  jobs = λ i. SameJob-trans (a.jobs i) (b.jobs i);
  same_number = b.same_number ∙ a.same_number;
}

pub SameJob-update :
    (ps : Store) (i : ℕ) (p : Process)
    → SameJob (ps i) p
    → (a : ℕ) → SameJob (ps a) (update ps i p a)
SameJob-update ps i p h a = elim (Bool-cases (i == a)) [
  | inl same ↦ rw same (let e : i ≡ a = ground arith in subst (λ j. SameJob (ps j) p) e h)
  | inr other ↦ rw other (SameJob-refl (ps a))
]

scheduled-SameJob :
    (alg : Algorithm) (i : ℕ) (s : SchedulerState) → SameJob (s.processes i) (scheduled alg i s)
unfolding scheduled schedule schedule_fcfs schedule_sjf schedule_stcf schedule_rr schedule_mlfq
scheduled-SameJob fcfs i s = ground arith
scheduled-SameJob sjf i s = ground arith
scheduled-SameJob stcf i s = ground arith
scheduled-SameJob rr i s = ground arith
scheduled-SameJob mlfq i s = ground arith

after_run-SameJob :
    (safety : Bool) (alg : Algorithm) (i : ℕ) (s : SchedulerState)
    → SameJob (s.processes i) (after_run safety alg i s)
unfolding after_run
after_run-SameJob safety alg i s = ground (arith, scheduled-SameJob alg i s)

pub dispatch-Keeps :
    (arrange safety : Bool) (alg : Algorithm) (i : ℕ) (s : SchedulerState)
    → Keeps s (dispatch arrange safety alg i s)
unfolding dispatch
dispatch-Keeps arrange safety alg i s = record {
  jobs = SameJob-update s.processes i _ (after_run-SameJob safety alg i s);
  same_number = refl;
}

enqueue-SameJob : (ps : Store) (w : WaitingQueue) (i a : ℕ) → SameJob (ps a) ((enqueue ps w i).0 a)
unfolding enqueue mlfq_enqueue admit
enqueue-SameJob ps (fcfs_queue q) i a = SameJob-refl (ps a)
enqueue-SameJob ps (sjf_queue q) i a = SameJob-refl (ps a)
enqueue-SameJob ps (stcf_queue q) i a = SameJob-refl (ps a)
enqueue-SameJob ps (rr_queue q) i a = SameJob-refl (ps a)
enqueue-SameJob ps (mlfq_queue q) i a = SameJob-update ps i (admit (ps i)) (ground arith) a

pub enqueue_waiting-Keeps : (i : ℕ) (s : SchedulerState) → Keeps s (enqueue_waiting i s)
unfolding enqueue_waiting
enqueue_waiting-Keeps i s = record {
  jobs = enqueue-SameJob s.processes s.waiting i;
  same_number = refl;
}

dispatch_taken-Keeps :
    (arrange safety : Bool) (alg : Algorithm) (s : SchedulerState) (o : Option (ℕ × WaitingQueue))
    → Keeps s (dispatch_taken arrange safety alg s o)
unfolding dispatch_taken
dispatch_taken-Keeps arrange safety alg s none = record {
  jobs = λ a. SameJob-refl (s.processes a);
  same_number = refl;
}
dispatch_taken-Keeps arrange safety alg s (some (i, w)) =
    let k = dispatch-Keeps arrange safety alg i (record s { waiting = w }) in
    record { jobs = k.jobs; same_number = k.same_number }

pub dispatch_next-Keeps :
    (arrange safety : Bool) (alg : Algorithm) (s : SchedulerState)
    → Keeps s (dispatch_next arrange safety alg s)
unfolding dispatch_next
dispatch_next-Keeps arrange safety alg s = elim (Bool-cases (queue_size s.waiting == 0)) [
  | inl z ↦
      rw (z, dispatch_next)
        (record { jobs = λ a. SameJob-refl (s.processes a); same_number = refl })
  | inr nz ↦ rw (nz, dispatch_next) (dispatch_taken-Keeps arrange safety alg s (dequeue s.waiting))
]
