-- ===== src/Sched/Simulator/Completion.antt =====
-- The simulation ends, and at its end every process has run to completion.
use cmsc125_lab.Base.{
  ltb, ◌==◌, Bool-cases, length, pos, ◌-ℤ◌, ℕ, zero, suc, ◌+◌, ◌*◌, ◌<◌, ◌≡◌, refl, ap, ◌∙◌, ◌≢◌,
  inl, inr, true, Option, none, some, List, [], ◌∷◌, arith,
}
use cmsc125_lab.Sched.EventQueue.{EventQueue, dequeue_event}
use cmsc125_lab.Sched.EventQueue.Counts.{weigh}
use cmsc125_lab.Sched.Process.{Process, Event}
use cmsc125_lab.Sched.Simulator.{
  finished_processes, finish_running, process_event, event_loop, metrics_of, calculate_metrics,
  simulate_scheduler,
}
use cmsc125_lab.Sched.Simulator.Frame.{finish_running-Keeps, process_event-Keeps}
use cmsc125_lab.Sched.Simulator.Handlers.{finish_running-remaining}
use cmsc125_lab.Sched.Simulator.Invariant.{Inv}
use cmsc125_lab.Sched.Simulator.Measure.{left, measure}
use cmsc125_lab.Sched.Simulator.SameJobs.{SameJob, Keeps, Keeps-refl, Keeps-trans}
use cmsc125_lab.Sched.Simulator.Start.{IsReady, started, start-Inv, measure-start}
use cmsc125_lab.Sched.Simulator.Steps.{Cpu-at, process_event-Inv}
use cmsc125_lab.Sched.Simulator.Termination.{process_event_lowers}
use cmsc125_lab.Sched.State.{SchedulerState, Algorithm}
use cmsc125_lab.Sched.WaitingQueue.Contents.{contents}

-- How a run of the event loop ends.
pub record Ends (alg : Algorithm) (fuel : ℕ) (s : SchedulerState) : Type 0 where
  pub last : SchedulerState
  pub reached : event_loop alg fuel s ≡ some last
  pub last_inv : Inv alg last
  pub drained : last.event_queue.events ≡ []
  pub kept : Keeps s last

size_zero : (es : List Event) → length es ≡ 0 → es ≡ []
size_zero [] h = refl
size_zero (e ∷ es) h = absurd (omega arith)

-- One more round in front of a run.
Ends-step :
    {alg : Algorithm} (fuel : ℕ) (s : SchedulerState) (o : Option (Event × EventQueue))
    → Inv alg s
    → dequeue_event s.event_queue ≡ o
    → ((r : Event × EventQueue)
        → dequeue_event s.event_queue ≡ some r
        → Ends alg fuel (process_event alg s r))
    → s.event_queue.size ≢ 0
    → (t : SchedulerState) × (elim o [
      | none ↦ some s
      | some r ↦ event_loop alg fuel (process_event alg s r)
    ]
        ≡ some t)
      × Inv alg t
      × (t.event_queue.events ≡ [])
      × Keeps s t
unfolding dequeue_event
Ends-step {alg} fuel s none v e rest nz =
    absurd (nz (v.core.events_counted ∙ ap length (empty s.event_queue.events refl)))
  where
    empty : (es : List Event) → s.event_queue.events ≡ es → s.event_queue.events ≡ []
    empty [] p = p
    empty (x ∷ es) p = ground arith
Ends-step {alg} fuel s (some r) v e rest nz =
    let f = rest r e in
    (
      f.last,
      f.reached,
      f.last_inv,
      f.drained,
      Keeps-trans (process_event-Keeps alg s r v.core.no_mlfq) f.kept,
    )

-- From a state with the invariant, and with more fuel than the measure, the loop ends by its test:
-- in a state with the invariant and no event, with the jobs as they were.
pub event_loop-Ends :
    {alg : Algorithm} (fuel : ℕ) (s : SchedulerState)
    → Inv alg s
    → measure s < fuel
    → Ends alg fuel s
unfolding event_loop
event_loop-Ends zero s v h = absurd (omega arith)
event_loop-Ends {alg} (suc fuel) s v h = elim (Bool-cases (s.event_queue.size == 0)) [
  | inl z ↦ record {
    last = s;
    reached = rw (z, event_loop);
    last_inv = v;
    drained = size_zero s.event_queue.events (ground (arith, v.core.events_counted));
    kept = Keeps-refl s;
  }
  | inr nz ↦
      let (t, reached, inv, drained, kept) =
        Ends-step fuel s (dequeue_event s.event_queue) v refl
          (λ r d.
            event_loop-Ends fuel (process_event alg s r) (process_event-Inv v r d)
              (omega (arith, process_event_lowers v r d)))
          (λ z. ground arith) in
      record {
        last = t;
        reached = rw (nz, event_loop) reached;
        last_inv = inv;
        drained = drained;
        kept = kept;
      }
]

-- A drained queue leaves the CPU idle and nobody waiting.
drained_idle :
    {alg : Algorithm} {s : SchedulerState}
    → Inv alg s
    → s.event_queue.events ≡ []
    → (s.running ≡ none) × (contents s.waiting ≡ [])
unfolding weigh
drained_idle {alg} {s} v d = by_running s.running refl
  where
    by_running : (o : Option ℕ) → s.running ≡ o → (s.running ≡ none) × (contents s.waiting ≡ [])
    by_running none run = (run, (Cpu-at v none run).1)
    by_running (some r) run = absurd (ground (arith, d, (Cpu-at v (some r) run).0))

drained_spent :
    {alg : Algorithm} {s : SchedulerState}
    → Inv alg s
    → s.event_queue.events ≡ []
    → (a : ℕ) → a < s.num_processes
    → (s.processes a).remaining_time ≡ pos 0
unfolding weigh
drained_spent {alg} {s} v d a lt =
    let (idle, empty) = drained_idle v d in
    ground (arith, idle, empty, d, v.core.remaining_nonneg a, v.core.not_lost a lt)

-- What the simulator leaves for each process: nothing remains, the job is the one that was given,
-- and the three metrics are the differences of its times.
pub record IsReported (p q : Process) : Type 0 where
  pub spent : q.remaining_time ≡ pos 0
  pub same_job : SameJob p q
  pub turnaround : q.turnaround_time ≡ q.finish_time -ℤ q.arrival_time
  pub waiting : q.waiting_time ≡ q.turnaround_time -ℤ q.burst_time
  pub response : q.response_time ≡ q.start_time -ℤ q.arrival_time

-- The final state of a simulation.
pub record IsComplete (s t : SchedulerState) : Type 0 where
  pub reported : (a : ℕ) → a < s.num_processes → IsReported (s.processes a) (t.processes a)
  pub nobody_waits : contents t.waiting ≡ []
  pub nobody_runs : t.running ≡ none
  pub no_events : t.event_queue.events ≡ []
  pub same_count : t.num_processes ≡ s.num_processes

abbrev pub final : SchedulerState → SchedulerState
final s = record (finish_running s) {
  processes = calculate_metrics (finish_running s).num_processes (finish_running s).processes;
}

metrics-IsReported :
    (p q : Process) → q.remaining_time ≡ pos 0 → SameJob p q → IsReported p (metrics_of q)
unfolding metrics_of
metrics-IsReported p q h j = record {
  spent = h;
  same_job = record {
    same_pid = j.same_pid;
    same_arrival = j.same_arrival;
    same_burst = j.same_burst;
  };
  turnaround = refl;
  waiting = refl;
  response = refl;
}

final-IsComplete :
    {alg : Algorithm} (s t : SchedulerState)
    → Inv alg t
    → t.event_queue.events ≡ []
    → Keeps s t
    → IsComplete s (final t)
unfolding finish_running calculate_metrics
final-IsComplete s t v d k =
    let (idle, empty) = drained_idle v d in
    record {
      reported = λ a lt.
          let below : ltb a t.num_processes ≡ true = ground (arith, k.same_number) in
          let f = finish_running-Keeps t in
          rw below (
            metrics-IsReported (s.processes a) (finished_processes t.running t a)
              (finish_running-remaining t.running t a
                ∙ drained_spent v d a (ground (arith, k.same_number)))
              ((Keeps-trans k f).jobs a));
      nobody_waits = empty;
      nobody_runs = idle;
      no_events = d;
      same_count = k.same_number;
    }

-- Under FCFS, SJF, STCF, and RR with a positive quantum, a simulation that starts ready ends, if
-- the fuel is more than three rounds for each process and two for each unit of burst time; then
-- nothing remains of any process, nobody waits or runs, no event is pending, and the metrics of
-- each process are the differences of its times.
pub simulate_scheduler-IsComplete :
    {alg : Algorithm} (fuel : ℕ) (s : SchedulerState)
    → IsReady alg s
    → 2 * left s.processes s.num_processes + 3 * s.num_processes < fuel
    → (t : SchedulerState) × (simulate_scheduler alg fuel s ≡ some t) × IsComplete s t
unfolding simulate_scheduler
simulate_scheduler-IsComplete {alg} fuel s r h =
    let f = event_loop-Ends fuel (started alg s) (start-Inv r) (omega (arith, measure-start r)) in
    (
      final f.last,
      rw (f.reached, simulate_scheduler),
      final-IsComplete s f.last f.last_inv f.drained
          (record { jobs = f.kept.jobs; same_number = f.kept.same_number }),
    )
