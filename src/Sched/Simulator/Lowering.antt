-- ===== src/Sched/Simulator/Lowering.antt =====
-- How the parts of the handlers of src/simulator.c change the measure.
use cmsc125_lab.Base.{
  ◌==◌, Bool-cases, ℕ, ◌+◌, ◌≤◌, ◌≡◌, refl, ap, inl, inr, Bool, false, Option, none, some, List, [],
  ◌∷◌, arith,
}
use cmsc125_lab.Sched.EventQueue.{unlink_event, remove_event_for_process}
use cmsc125_lab.Sched.EventQueue.Counts.{weigh}
use cmsc125_lab.Sched.Process.{Store, Event}
use cmsc125_lab.Sched.Simulator.{
  dispatch, enqueue_waiting, dispatch_taken, dispatch_next, preempts, arrival_while_running,
  finished_processes, finish_running, handle_completion, requeue_running,
}
use cmsc125_lab.Sched.Simulator.Handlers.{preempt-Core, unlinked, finish_running-remaining}
use cmsc125_lab.Sched.Simulator.Invariant.{cpu_events, ends, Core}
use cmsc125_lab.Sched.Simulator.Measure.{event_weights, left-eq, measure, measure-dispatch}
use cmsc125_lab.Sched.Simulator.Moves.{
  Core-store, processes-enqueue_waiting, enqueue_waiting-Core, requeue_round-Enqueued, taken-Core,
}
use cmsc125_lab.Sched.State.{
  SchedulerState, Algorithm, fcfs, sjf, stcf, rr, mlfq, sort_by_burst_time,
}
use cmsc125_lab.Sched.WaitingQueue.{WaitingQueue, queue_size, enqueue, dequeue}
use cmsc125_lab.Sched.WaitingQueue.Contents.{hit}
use cmsc125_lab.Sched.WaitingQueue.Contract.{enqueue-Enqueued, Dequeued, dequeue-Dequeued}

measure-enqueue_waiting :
    {alg : Algorithm} {x : ℕ → ℕ} {s : SchedulerState}
    → Core alg x s
    → (i : ℕ) → measure (enqueue_waiting i s) ≡ measure s + 1
unfolding measure enqueue_waiting
measure-enqueue_waiting {s} c i =
    let n = enqueue-Enqueued s.processes s.waiting i c.exact in
    omega (
      arith,
      n.adds.longer,
      left-eq s.processes (enqueue s.processes s.waiting i).0 s.num_processes
          (λ a. ap (λ (f : Store). (f a).remaining_time) (processes-enqueue_waiting c i)),
    )

measure-dispatch_taken :
    (arrange safety : Bool) (alg : Algorithm) (s : SchedulerState)
    → Core alg (λ _. 0) s
    → cpu_events s.event_queue.events ≡ 0
    → (o : Option (ℕ × WaitingQueue)) → dequeue s.waiting ≡ o
    → Dequeued s.waiting o
    → measure (dispatch_taken arrange safety alg s o) ≤ measure s
unfolding dispatch_taken
measure-dispatch_taken arrange safety alg s c free none e d = unfold measure in omega arith
measure-dispatch_taken arrange safety alg s c free (some (i, w)) e d = omega (
  arith,
  measure-dispatch arrange safety alg i (record s { waiting = w })
      (taken-Core arrange safety s c free i w e d) free,
  shorter,
)
  where
    shorter : measure (record s { waiting = w }) + 1 ≡ measure s
    shorter = unfold measure in omega (arith, d.0.longer)

pub measure-dispatch_next :
    (arrange safety : Bool) (alg : Algorithm) (s : SchedulerState)
    → Core alg (λ _. 0) s
    → cpu_events s.event_queue.events ≡ 0
    → measure (dispatch_next arrange safety alg s) ≤ measure s
unfolding dispatch_next
measure-dispatch_next arrange safety alg s c free = elim (Bool-cases (queue_size s.waiting == 0)) [
  | inl z ↦ rw (z, dispatch_next) (unfold measure in omega arith)
  | inr nz ↦
      rw (nz, dispatch_next)
        (measure-dispatch_taken arrange safety alg s c free (dequeue s.waiting) refl
          (dequeue-Dequeued s.waiting c.exact))
]

pub measure-requeue_running :
    {alg : Algorithm} (r : ℕ) (s : SchedulerState)
    → Core alg (λ a. hit a r) s
    → measure (requeue_running alg false r s) ≡ measure s + 1
unfolding requeue_running
measure-requeue_running {alg = fcfs} r s c = measure-enqueue_waiting c r
measure-requeue_running {alg = sjf} r s c = measure-enqueue_waiting c r
measure-requeue_running {alg = stcf} r s c = measure-enqueue_waiting c r
measure-requeue_running {alg = rr} r s c =
    unfold measure in
    omega (arith, (requeue_round-Enqueued s.waiting r c.paired c.exact).adds.longer)
measure-requeue_running {alg = mlfq} r s c = absurd (c.no_mlfq refl)

weights-unlink : (r : ℕ) (es : List Event) → event_weights (unlink_event r es).0 ≤ event_weights es
unfolding weigh unlink_event
weights-unlink r [] = omega arith
weights-unlink r (e ∷ es) = ground (arith, weights-unlink r es)

module _ {alg : Algorithm} (i r : ℕ) (s : SchedulerState) (c : Core alg (λ a. hit a i + hit a r) s)
    (run : s.running ≡ some r) (one : cpu_events s.event_queue.events ≡ 1)
    (end : ends r (s.processes r) s.event_queue.events ≡ 1) where
  abbrev without : SchedulerState
  without = record s { event_queue = remove_event_for_process s.event_queue r }

  without-Core : Core alg (λ a. hit a i + hit a r) without
  without-Core = preempt-Core i r s c (unlinked i r s c run one end)

  measure-preempting :
      measure (dispatch (sort_by_burst_time alg) false alg i (enqueue_waiting r without))
      ≤ measure s + 2
  measure-preempting = omega (
    arith,
    measure-dispatch (sort_by_burst_time alg) false alg i (enqueue_waiting r without)
        (enqueue_waiting-Core without-Core (λ a. hit a i) r (λ a. omega arith)) free,
    measure-enqueue_waiting without-Core r,
    smaller,
  )
    where
      free : cpu_events (enqueue_waiting r without).event_queue.events ≡ 0
      free =
          unfold enqueue_waiting remove_event_for_process in
          omega (arith, (unlinked i r s c run one end).cpu_less, one)

      smaller : measure without ≤ measure s
      smaller =
          unfold measure remove_event_for_process in
          omega (arith, weights-unlink r s.event_queue.events)

  pub measure-arrival_while_running : measure (arrival_while_running alg i r s) ≤ measure s + 2
  unfolding arrival_while_running
  measure-arrival_while_running = elim (Bool-cases (preempts alg (s.processes i) (s.processes r))) [
    | inl pre ↦ rw pre measure-preempting
    | inr wait ↦ rw wait (omega (arith, measure-enqueue_waiting c i))
  ]

pub measure-handle_completion :
    {alg : Algorithm} (s : SchedulerState)
    → Core alg (λ _. 0) s
    → cpu_events s.event_queue.events ≡ 0
    → measure (handle_completion alg s) ≤ measure s
unfolding handle_completion finish_running
measure-handle_completion {alg} s c free = omega (
  arith,
  measure-dispatch_next (sort_by_burst_time alg) false alg _
      (Core-store c none (finished_processes s.running s) (finish_running-remaining s.running s))
      free,
  same,
)
  where
    same :
        measure (record s { processes = finished_processes s.running s; running = none })
        ≡ measure s
    same =
        unfold measure in
        omega (
          arith,
          left-eq s.processes (finished_processes s.running s) s.num_processes
              (finish_running-remaining s.running s),
        )
