-- ===== src/Sched/Simulator/Handlers.antt =====
-- Every handler keeps the invariant of the event loop.
use cmsc125_lab.Base.{
  Bool-cases, ℕ, ◌+◌, ◌≡◌, refl, sym, subst, ◌≢◌, inl, inr, true, false, Option, none, some, arith,
}
use cmsc125_lab.Sched.EventQueue.{remove_event_for_process}
use cmsc125_lab.Sched.EventQueue.Order.{remove-IsTimely}
use cmsc125_lab.Sched.Simulator.{
  dispatch, enqueue_waiting, preempts, arrival_while_running, arrive, handle_arrival,
  finished_processes, finish_running, handle_completion, check_demotion, requeue_running, expire,
  handle_quantum_expire,
}
use cmsc125_lab.Sched.Simulator.Dispatch.{dispatch-Inv}
use cmsc125_lab.Sched.Simulator.Invariant.{cpu_events, ends, Core, on_cpu, Cpu, Inv}
use cmsc125_lab.Sched.Simulator.Moves.{
  Core-store, Core-waiting, processes-enqueue_waiting, enqueue_waiting-Core, requeue_round-Enqueued,
  kind-requeue_round, dispatch_next-Inv,
}
use cmsc125_lab.Sched.Simulator.Queued.{Unlinked, unlink_event-Unlinked}
use cmsc125_lab.Sched.State.{
  SchedulerState, Algorithm, fcfs, sjf, stcf, rr, mlfq, sort_by_burst_time,
}
use cmsc125_lab.Sched.WaitingQueue.Contents.{hit}

-- Arrivals. The process in hand is dispatched, preempts the running one, or waits.
pub arrival_idle-Inv :
    {alg : Algorithm} (i : ℕ) (s : SchedulerState)
    → Core alg (λ a. hit a i) s
    → s.running ≡ none
    → cpu_events s.event_queue.events ≡ 0
    → Inv alg (handle_arrival alg i s)
unfolding handle_arrival
arrival_idle-Inv {alg} i s c idle free =
    subst (λ o. Inv alg (arrive alg i o s)) (sym idle)
      (dispatch-Inv (sort_by_burst_time alg) false alg i s c free)

pub preempt-Core :
    {alg : Algorithm} (i r : ℕ) (s : SchedulerState)
    → Core alg (λ a. hit a i + hit a r) s
    → Unlinked r s.event_queue.events
    → Core alg
        (λ a. hit a i + hit a r)
        (record s { event_queue = remove_event_for_process s.event_queue r })
unfolding remove_event_for_process
preempt-Core i r s c u = record {
  exact = c.exact;
  paired = c.paired;
  no_mlfq = c.no_mlfq;
  quantum_pos = c.quantum_pos;
  timely = remove-IsTimely s.current_time s.event_queue r c.timely;
  events_counted = rw u.found (omega (arith, u.shorter, c.events_counted));
  no_boosts = omega (arith, u.same_boosts, c.no_boosts);
  remaining_nonneg = c.remaining_nonneg;
  once = λ a. omega (arith, u.same_arrivals a, c.once a);
  in_range = λ a lt. omega (arith, u.same_arrivals a, c.in_range a lt);
  not_lost = λ a lt p. omega (arith, u.same_arrivals a, c.not_lost a lt p);
}

module _ {alg : Algorithm} (i r : ℕ) (s : SchedulerState) (c : Core alg (λ a. hit a i + hit a r) s)
    (run : s.running ≡ some r) (one : cpu_events s.event_queue.events ≡ 1)
    (end : ends r (s.processes r) s.event_queue.events ≡ 1) where
  pub unlinked : Unlinked r s.event_queue.events
  unlinked =
      unlink_event-Unlinked r (s.processes r) s.event_queue.events (ground (arith, c.once r))
        c.no_boosts (omega arith)

  preempting-Inv : Inv alg (
      dispatch
        (sort_by_burst_time alg)
        false
        alg
        i
        (enqueue_waiting r (record s { event_queue = remove_event_for_process s.event_queue r })))
  unfolding enqueue_waiting remove_event_for_process
  preempting-Inv =
      dispatch-Inv (sort_by_burst_time alg) false alg i _
        (enqueue_waiting-Core (preempt-Core i r s c unlinked) (λ a. hit a i) r (λ a. omega arith))
        (omega (arith, unlinked.cpu_less))

  waiting-Inv : Inv alg (enqueue_waiting i s)
  unfolding enqueue_waiting
  waiting-Inv = record {
    core =
        subst (λ o. Core alg (on_cpu o) (enqueue_waiting i s)) (sym run)
          (enqueue_waiting-Core c (λ a. hit a r) i (λ a. refl));
    cpu =
        subst
          (λ o.
            Cpu (enqueue_waiting i s).processes o (enqueue_waiting i s).waiting
              s.event_queue.events)
          (sym run) (one, rw (processes-enqueue_waiting c i) end);
  }

  pub arrival_while_running-Inv : Inv alg (arrival_while_running alg i r s)
  unfolding arrival_while_running
  arrival_while_running-Inv = elim (Bool-cases (preempts alg (s.processes i) (s.processes r))) [
    | inl pre ↦ rw pre preempting-Inv
    | inr wait ↦ rw wait waiting-Inv
  ]

pub finish_running-remaining :
    (o : Option ℕ) (s : SchedulerState) (a : ℕ)
    → (finished_processes o s a).remaining_time ≡ (s.processes a).remaining_time
unfolding finished_processes
finish_running-remaining none s a = refl
finish_running-remaining (some r) s a = ground arith

-- Completion. The process that ends has nothing left, so it may leave the CPU.
pub handle_completion-Inv :
    {alg : Algorithm} (s : SchedulerState)
    → Core alg (λ _. 0) s
    → cpu_events s.event_queue.events ≡ 0
    → Inv alg (handle_completion alg s)
unfolding handle_completion finish_running
handle_completion-Inv {alg} s c free =
    dispatch_next-Inv (sort_by_burst_time alg) false _
      (Core-store c none (finished_processes s.running s) (finish_running-remaining s.running s))
      free

-- Expiry. The running process goes back to the waiting queue, and the next one is dispatched.
pub requeue_running-Core :
    {alg : Algorithm} (r : ℕ) (s : SchedulerState)
    → Core alg (λ a. hit a r) s
    → Core alg (λ _. 0) (requeue_running alg false r s)
unfolding requeue_running
requeue_running-Core {alg = fcfs} r s c = enqueue_waiting-Core c (λ _. 0) r (λ a. omega arith)
requeue_running-Core {alg = sjf} r s c = enqueue_waiting-Core c (λ _. 0) r (λ a. omega arith)
requeue_running-Core {alg = stcf} r s c = enqueue_waiting-Core c (λ _. 0) r (λ a. omega arith)
requeue_running-Core {alg = rr} r s c =
    Core-waiting c (λ _. 0) r _ (requeue_round-Enqueued s.waiting r c.paired c.exact)
      (kind-requeue_round s.waiting r) (λ a. omega arith)
requeue_running-Core {alg = mlfq} r s c = absurd (c.no_mlfq refl)

pub event_queue-requeue_running :
    (alg : Algorithm) (r : ℕ) (s : SchedulerState)
    → (requeue_running alg false r s).event_queue ≡ s.event_queue
unfolding requeue_running enqueue_waiting
event_queue-requeue_running rr r s = refl
event_queue-requeue_running _ r s = refl

pub check_demotion_none :
    (alg : Algorithm) (r : ℕ) (s : SchedulerState)
    → alg ≢ mlfq
    → check_demotion alg r s ≡ (false, s)
unfolding check_demotion
check_demotion_none mlfq r s h = absurd (h refl)
check_demotion_none _ r s h = refl

pub handle_quantum_expire-Inv :
    {alg : Algorithm} (r : ℕ) (s : SchedulerState)
    → Core alg (λ a. hit a r) s
    → s.running ≡ some r
    → cpu_events s.event_queue.events ≡ 0
    → Inv alg (handle_quantum_expire alg s)
unfolding handle_quantum_expire
handle_quantum_expire-Inv {alg} r s c run free =
    subst (λ o. Inv alg (expire alg o s)) (sym run)
      (rw (check_demotion_none alg r s c.no_mlfq) (
        dispatch_next-Inv (sort_by_burst_time alg) true (requeue_running alg false r s)
          (requeue_running-Core r s c) (rw (event_queue-requeue_running alg r s) free)))
