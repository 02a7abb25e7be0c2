-- ===== src/Sched/Simulator/Steps.antt =====
-- Each round of the event loop keeps the invariant.
use cmsc125_lab.Base.{
  ℕ, ◌+◌, ◌≡◌, refl, sym, ap, subst, ◌≢◌, true, false, Option, none, some, arith,
}
use cmsc125_lab.Sched.EventQueue.{EventQueue, dequeue_event}
use cmsc125_lab.Sched.Process.{
  Process, EventType, arrival, completion, quantum_expire, priority_boost, Event,
}
use cmsc125_lab.Sched.Simulator.{
  arrive, handle_arrival, handle_completion, handle_quantum_expire, handle_priority_boost,
  handle_event, process_event,
}
use cmsc125_lab.Sched.Simulator.Dispatch.{ended, ends-le-cpu_events}
use cmsc125_lab.Sched.Simulator.Handlers.{
  arrival_idle-Inv, arrival_while_running-Inv, handle_completion-Inv, handle_quantum_expire-Inv,
}
use cmsc125_lab.Sched.Simulator.Invariant.{is_cpu_event, cpu_events, is_end_of, on_cpu, Cpu, Inv}
use cmsc125_lab.Sched.Simulator.Moves.{Core-drop}
use cmsc125_lab.Sched.Simulator.Queued.{popped, popped-Core, cpu_events-popped, ends-popped}
use cmsc125_lab.Sched.State.{SchedulerState, Algorithm, mlfq}
use cmsc125_lab.Sched.WaitingQueue.Contents.{hit}

pub Cpu-at :
    {alg : Algorithm} {s : SchedulerState}
    → Inv alg s
    → (o : Option ℕ) → s.running ≡ o
    → Cpu s.processes o s.waiting s.event_queue.events
Cpu-at {s} v o run = subst (λ o. Cpu s.processes o s.waiting s.event_queue.events) run v.cpu

pub boost_ignored :
    (alg : Algorithm) (s : SchedulerState) → alg ≢ mlfq → handle_priority_boost alg s ≡ s
unfolding handle_priority_boost
boost_ignored mlfq s h = absurd (h refl)
boost_ignored _ s h = refl

module _ {alg : Algorithm} {s : SchedulerState} (v : Inv alg s) (e : Event) (q : EventQueue)
    (d : dequeue_event s.event_queue ≡ some (e, q)) where
  abbrev pub popped_state : SchedulerState
  popped_state = popped s (e, q)

  abbrev pub on_cpu_at : (o : Option ℕ) → s.running ≡ o → (a : ℕ) → on_cpu s.running a ≡ on_cpu o a
  on_cpu_at o run a = ap (λ o. on_cpu o a) run

  -- The state of the CPU after an event that is not the end of a run.
  pub Cpu-kept :
      is_cpu_event e.type ≡ false
      → ((p : Process) → is_end_of p e.type ≡ false)
      → (o : Option ℕ) → s.running ≡ o
      → Cpu s.processes o s.waiting q.events
  Cpu-kept nc ne none run =
      let c = Cpu-at v none run in (ground (arith, c.0, cpu_events-popped v.core e q d), c.1)
  Cpu-kept nc ne (some r) run =
      let c = Cpu-at v (some r) run in
      (
        ground (arith, c.0, cpu_events-popped v.core e q d),
        ground (arith, c.1, ne (s.processes r), ends-popped v.core e q d r (s.processes r)),
      )

  boost-Inv : e.type ≡ priority_boost → Inv alg popped_state
  boost-Inv k = record {
    core = popped-Core v.core e q d (on_cpu s.running) (λ a. ground arith);
    cpu = Cpu-kept (rw k) (λ p. ground arith) s.running refl;
  }

  null_arrival-Inv : e.type ≡ arrival → e.process ≡ none → Inv alg popped_state
  null_arrival-Inv k n = record {
    core = popped-Core v.core e q d (on_cpu s.running) (λ a. ground arith);
    cpu = Cpu-kept (rw k) (λ p. ground arith) s.running refl;
  }

  arrival-Inv :
      (i : ℕ) → e.type ≡ arrival → e.process ≡ some i → Inv alg (handle_arrival alg i popped_state)
  arrival-Inv i k p = by_running s.running refl
    where
      by_running : (o : Option ℕ) → s.running ≡ o → Inv alg (handle_arrival alg i popped_state)
      by_running none run =
          let c = Cpu-kept (rw k) (λ p. ground arith) none run in
          arrival_idle-Inv i popped_state
            (popped-Core v.core e q d (λ a. hit a i) (λ a. ground (arith, on_cpu_at none run a)))
            run c.0
      by_running (some r) run =
          let c = Cpu-kept (rw k) (λ p. ground arith) (some r) run in
          let core =
            popped-Core v.core e q d (λ a. hit a i + hit a r)
              (λ a. ground (arith, on_cpu_at (some r) run a)) in
          unfold handle_arrival in
          subst (λ o. Inv alg (arrive alg i o popped_state)) (sym run)
            (arrival_while_running-Inv i r popped_state core run c.0 c.1)

  -- The end of a run: the process that runs is the one of the event, and the event is of the type
  -- that its remaining time calls for.
  pub end_of_run :
      is_cpu_event e.type ≡ true
      → (r : ℕ) × (s.running ≡ some r)
        × (is_end_of (s.processes r) e.type ≡ true)
        × (cpu_events q.events ≡ 0)
  end_of_run k = by_running s.running refl
    where
      by_running :
          (o : Option ℕ)
          → s.running ≡ o
          → (r : ℕ) × (s.running ≡ some r)
            × (is_end_of (s.processes r) e.type ≡ true)
            × (cpu_events q.events ≡ 0)
      by_running none run =
          absurd (ground (arith, (Cpu-at v none run).0, cpu_events-popped v.core e q d))
      by_running (some r) run =
          let c = Cpu-at v (some r) run in
          let free : cpu_events q.events ≡ 0 =
            ground (arith, c.0, cpu_events-popped v.core e q d) in
          (
            r,
            run,
            ground (
              arith,
              c.1,
              free,
              ends-popped v.core e q d r (s.processes r),
              ends-le-cpu_events r (s.processes r) q.events,
            ),
            free,
          )

  completion-Inv : e.type ≡ completion → Inv alg (handle_completion alg popped_state)
  completion-Inv k =
      let (r, run, ended, free) = end_of_run (rw k) in
      let c =
        popped-Core v.core e q d (λ a. hit a r) (λ a. ground (arith, on_cpu_at (some r) run a)) in
      handle_completion-Inv popped_state
        (Core-drop c (λ _. 0) (λ a. omega arith) (λ a p. ground arith)) free

  expiry-Inv : e.type ≡ quantum_expire → Inv alg (handle_quantum_expire alg popped_state)
  expiry-Inv k =
      let (r, run, ended, free) = end_of_run (rw k) in
      handle_quantum_expire-Inv r popped_state
        (popped-Core v.core e q d (λ a. hit a r) (λ a. ground (arith, on_cpu_at (some r) run a)))
        run free

-- Under FCFS, SJF, STCF, and RR with a positive quantum, each round of the event loop keeps the
-- invariant.
pub process_event-Inv :
    {alg : Algorithm} {s : SchedulerState}
    → Inv alg s
    → (r : Event × EventQueue) → dequeue_event s.event_queue ≡ some r
    → Inv alg (process_event alg s r)
unfolding process_event
process_event-Inv {alg} {s} v (e, q) d = by_type e.type e.process refl refl
  where
    by_type :
        (k : EventType) (p : Option ℕ)
        → e.type ≡ k
        → e.process ≡ p
        → Inv alg (handle_event alg k p (popped s (e, q)))
    by_type arrival none ek ep = unfold handle_event in null_arrival-Inv v e q d ek ep
    by_type arrival (some i) ek ep = unfold handle_event in arrival-Inv v e q d i ek ep
    by_type completion p ek ep = unfold handle_event in completion-Inv v e q d ek
    by_type quantum_expire p ek ep = unfold handle_event in expiry-Inv v e q d ek
    by_type priority_boost p ek ep =
        unfold handle_event in rw (boost_ignored alg _ v.core.no_mlfq) (boost-Inv v e q d ek)
