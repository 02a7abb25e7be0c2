-- ===== src/Sched/Simulator/Termination.antt =====
-- Each round of the event loop lowers the measure, so the loop ends.
use cmsc125_lab.Base.{
  ℕ, ◌+◌, ◌≤◌, ◌<◌, ◌≡◌, refl, sym, subst, true, false, Option, none, some, arith,
}
use cmsc125_lab.Sched.EventQueue.{EventQueue, dequeue_event}
use cmsc125_lab.Sched.Process.{
  EventType, arrival, completion, quantum_expire, priority_boost, Event,
}
use cmsc125_lab.Sched.Simulator.{
  arrive, handle_arrival, handle_completion, requeue_running, expire, handle_quantum_expire,
  handle_event, process_event,
}
use cmsc125_lab.Sched.Simulator.Dispatch.{ended}
use cmsc125_lab.Sched.Simulator.Handlers.{
  requeue_running-Core, event_queue-requeue_running, check_demotion_none,
}
use cmsc125_lab.Sched.Simulator.Invariant.{cpu_events, ends, Core, Inv}
use cmsc125_lab.Sched.Simulator.Lowering.{
  measure-dispatch_next, measure-requeue_running, measure-arrival_while_running,
  measure-handle_completion,
}
use cmsc125_lab.Sched.Simulator.Measure.{event_weight, measure, measure-dispatch}
use cmsc125_lab.Sched.Simulator.Moves.{Core-drop}
use cmsc125_lab.Sched.Simulator.Queued.{popped, weigh-popped, popped-Core}
use cmsc125_lab.Sched.Simulator.Steps.{boost_ignored, on_cpu_at, Cpu-kept, end_of_run}
use cmsc125_lab.Sched.State.{SchedulerState, Algorithm, sort_by_burst_time}
use cmsc125_lab.Sched.WaitingQueue.Contents.{hit}

measure-arrival_idle :
    (alg : Algorithm) (i : ℕ) (s : SchedulerState)
    → Core alg (λ a. hit a i) s
    → s.running ≡ none
    → cpu_events s.event_queue.events ≡ 0
    → measure (handle_arrival alg i s) ≤ measure s + 1
unfolding handle_arrival
measure-arrival_idle alg i s c idle free =
    subst (λ o. measure (arrive alg i o s) ≤ measure s + 1) (sym idle)
      (measure-dispatch (sort_by_burst_time alg) false alg i s c free)

measure-arrival_busy :
    (alg : Algorithm) (i r : ℕ) (s : SchedulerState)
    → Core alg (λ a. hit a i + hit a r) s
    → s.running ≡ some r
    → cpu_events s.event_queue.events ≡ 1
    → ends r (s.processes r) s.event_queue.events ≡ 1
    → measure (handle_arrival alg i s) ≤ measure s + 2
unfolding handle_arrival
measure-arrival_busy alg i r s c run one end =
    subst (λ o. measure (arrive alg i o s) ≤ measure s + 2) (sym run)
      (measure-arrival_while_running i r s c run one end)

measure-handle_quantum_expire :
    (alg : Algorithm) (r : ℕ) (s : SchedulerState)
    → Core alg (λ a. hit a r) s
    → s.running ≡ some r
    → cpu_events s.event_queue.events ≡ 0
    → measure (handle_quantum_expire alg s) ≤ measure s + 1
unfolding handle_quantum_expire
measure-handle_quantum_expire alg r s c run free =
    subst (λ o. measure (expire alg o s) ≤ measure s + 1) (sym run)
      (rw (check_demotion_none alg r s c.no_mlfq) (
        omega (
          arith,
          measure-dispatch_next (sort_by_burst_time alg) true alg (requeue_running alg false r s)
              (requeue_running-Core r s c) (rw (event_queue-requeue_running alg r s) free),
          measure-requeue_running r s c,
        )))

module _ {alg : Algorithm} {s : SchedulerState} (v : Inv alg s) (e : Event) (q : EventQueue)
    (d : dequeue_event s.event_queue ≡ some (e, q)) where
  abbrev t : SchedulerState
  t = popped s (e, q)

  measure-popped : measure s ≡ event_weight e.type + measure t
  unfolding measure
  measure-popped = omega (arith, weigh-popped v.core e q d (λ (e : Event). event_weight e.type))

  lighter : event_weight e.type + measure t ≤ measure s
  lighter = omega (arith, measure-popped)

  arrival_lowers :
      (i : ℕ) → e.type ≡ arrival → e.process ≡ some i → measure (handle_arrival alg i t) < measure s
  arrival_lowers i k p = by_running s.running refl
    where
      by_running : (o : Option ℕ) → s.running ≡ o → measure (handle_arrival alg i t) < measure s
      by_running none run =
          let c = Cpu-kept v e q d (rw k) (λ p. ground arith) none run in
          let core =
            popped-Core v.core e q d (λ a. hit a i)
              (λ a. ground (arith, on_cpu_at v e q d none run a)) in
          ground (arith, measure-popped, measure-arrival_idle alg i t core run c.0)
      by_running (some r) run =
          let c = Cpu-kept v e q d (rw k) (λ p. ground arith) (some r) run in
          let core =
            popped-Core v.core e q d (λ a. hit a i + hit a r)
              (λ a. ground (arith, on_cpu_at v e q d (some r) run a)) in
          ground (arith, measure-popped, measure-arrival_busy alg i r t core run c.0 c.1)

  completion_lowers : e.type ≡ completion → measure (handle_completion alg t) < measure s
  completion_lowers k =
      let (r, run, ended, free) = end_of_run v e q d (rw k) in
      let c =
        popped-Core v.core e q d (λ a. hit a r)
          (λ a. ground (arith, on_cpu_at v e q d (some r) run a)) in
      let c' = Core-drop c (λ _. 0) (λ a. omega arith) (λ a p. ground arith) in
      ground (arith, measure-popped, measure-handle_completion t c' free)

  expiry_lowers : e.type ≡ quantum_expire → measure (handle_quantum_expire alg t) < measure s
  expiry_lowers k =
      let (r, run, ended, free) = end_of_run v e q d (rw k) in
      let c =
        popped-Core v.core e q d (λ a. hit a r)
          (λ a. ground (arith, on_cpu_at v e q d (some r) run a)) in
      ground (arith, measure-popped, measure-handle_quantum_expire alg r t c run free)

  silent_lowers : measure t < measure s
  silent_lowers = ground (arith, measure-popped)

-- From a state with the invariant, each round of the event loop lowers the measure.
pub process_event_lowers :
    {alg : Algorithm} {s : SchedulerState}
    → Inv alg s
    → (r : Event × EventQueue) → dequeue_event s.event_queue ≡ some r
    → measure (process_event alg s r) < measure s
unfolding process_event
process_event_lowers {alg} {s} v (e, q) d = by_type e.type e.process refl refl
  where
    by_type :
        (k : EventType) (p : Option ℕ)
        → e.type ≡ k
        → e.process ≡ p
        → measure (handle_event alg k p (popped s (e, q))) < measure s
    by_type arrival none ek ep = unfold handle_event in silent_lowers v e q d
    by_type arrival (some i) ek ep = unfold handle_event in arrival_lowers v e q d i ek ep
    by_type completion p ek ep = unfold handle_event in completion_lowers v e q d ek
    by_type quantum_expire p ek ep = unfold handle_event in expiry_lowers v e q d ek
    by_type priority_boost p ek ep =
        unfold handle_event in
        rw (boost_ignored alg (popped s (e, q)) v.core.no_mlfq) (silent_lowers v e q d)
