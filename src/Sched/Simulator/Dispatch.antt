-- ===== src/Sched/Simulator/Dispatch.antt =====
-- Dispatching a process on a free CPU gives a state of the invariant.
use cmsc125_lab.Base.{
  update, ℤ, pos, pos_part, neg_part, ◌+ℤ◌, ◌≤ℤ◌, -ℤ_parts, int_laws, ℕ, ◌+◌, ◌≤◌, ◌≡◌, Bool, ◌&&◌,
  some, List, [], ◌∷◌, arith,
}
use cmsc125_lab.Sched.EventQueue.{enqueue_event, is_arrival, is_for}
use cmsc125_lab.Sched.EventQueue.Counts.{one_if, weigh, weigh-insert, length-insert}
use cmsc125_lab.Sched.EventQueue.Order.{enqueue-IsTimely}
use cmsc125_lab.Sched.Process.{Process, Store, Event, construct_event}
use cmsc125_lab.Sched.Simulator.{event_type_of, run_length, scheduled, after_run, dispatch}
use cmsc125_lab.Sched.Simulator.Invariant.{
  is_cpu_event, cpu_events, is_boost, is_end_of, ends, held, Core, Inv,
}
use cmsc125_lab.Sched.Simulator.RunTime.{IsRun, schedule-IsRun, remaining_time-after_run}
use cmsc125_lab.Sched.State.{SchedulerState, Algorithm}
use cmsc125_lab.Sched.WaitingQueue.Contents.{hit}

pub ends-le-cpu_events : (a : ℕ) (p : Process) (es : List Event) → ends a p es ≤ cpu_events es
unfolding weigh
ends-le-cpu_events a p [] = omega arith
ends-le-cpu_events a p (e ∷ es) = ground (arith, ends-le-cpu_events a p es)

-- The event at the end of a run is one CPU event, of the right type, and no arrival.
run_event_counts :
    (a i : ℕ) (t : ℤ) (p : Process)
    → let e = construct_event t (event_type_of p) (some i) in
      (one_if (is_cpu_event e.type) ≡ 1)
      × (one_if (is_for i e && is_end_of p e.type) ≡ 1)
      × (one_if (is_arrival e.type && is_for a e) ≡ 0)
      × (one_if (is_boost e.type) ≡ 0)
unfolding construct_event
run_event_counts a i t p = ground arith

module _ (arrange safety : Bool) (alg : Algorithm) (i : ℕ) (s : SchedulerState)
    (c : Core alg (λ a. hit a i) s) (free : cpu_events s.event_queue.events ≡ 0) where
  pub is_run : IsRun (s.processes i) (run_length alg i s) (scheduled alg i s)
  is_run = schedule-IsRun alg i s c.no_mlfq c.quantum_pos (c.remaining_nonneg i)

  abbrev pub ended : Process
  ended = after_run safety alg i s

  abbrev pub stored : Store
  stored = update s.processes i ended

  abbrev pub end_event : Event
  end_event = construct_event (s.current_time +ℤ run_length alg i s) (event_type_of ended) (some i)

  pub run_spent :
      pos_part ended.remaining_time
        + neg_part (s.processes i).remaining_time
        + pos_part (run_length alg i s)
      ≡ neg_part ended.remaining_time
        + pos_part (s.processes i).remaining_time
        + neg_part (run_length alg i s)
  run_spent =
      rw (remaining_time-after_run safety alg i s, is_run.unspent)
        (-ℤ_parts (s.processes i).remaining_time (run_length alg i s))

  -- What remains after the run, in terms of what remained before.
  pub run_remaining :
      (pos 0 ≤ℤ (after_run safety alg i s).remaining_time)
      × ((after_run safety alg i s).remaining_time ≤ℤ (s.processes i).remaining_time)
  run_remaining = omega (arith, run_spent, is_run.within, is_run.nonneg)

  remaining_falls :
      (a : ℕ)
      → (pos 0 ≤ℤ (stored a).remaining_time)
        × ((stored a).remaining_time ≤ℤ (s.processes a).remaining_time)
  remaining_falls a = ground (arith, run_remaining, c.remaining_nonneg a)

  now_le_end : s.current_time ≤ℤ end_event.time
  unfolding construct_event
  now_le_end = omega (int_laws, is_run.nonneg)

  counts :
      (a : ℕ)
      → (one_if (is_cpu_event end_event.type) ≡ 1)
        × (one_if (is_for i end_event && is_end_of ended end_event.type) ≡ 1)
        × (one_if (is_arrival end_event.type && is_for a end_event) ≡ 0)
        × (one_if (is_boost end_event.type) ≡ 0)
  counts a = run_event_counts a i (s.current_time +ℤ run_length alg i s) ended

  held_same : (a : ℕ) → held a (dispatch arrange safety alg i s) ≡ held a s
  unfolding dispatch enqueue_event
  held_same a = omega (
    arith,
    (counts a).2,
    weigh-insert (λ (e : Event). one_if (is_arrival e.type && is_for a e)) arrange stored end_event
        s.event_queue.events,
  )

  dispatch-Core : Core alg (λ a. hit a i) (dispatch arrange safety alg i s)
  unfolding dispatch
  dispatch-Core = record {
    exact = c.exact;
    paired = c.paired;
    no_mlfq = c.no_mlfq;
    quantum_pos = c.quantum_pos;
    timely =
        enqueue-IsTimely arrange stored s.current_time s.event_queue end_event now_le_end c.timely;
    events_counted =
        unfold enqueue_event in
        omega
          (arith, length-insert arrange stored end_event s.event_queue.events, c.events_counted);
    no_boosts =
        unfold enqueue_event in
        omega (
          arith,
          (counts i).3,
          c.no_boosts,
          weigh-insert (λ (e : Event). one_if (is_boost e.type)) arrange stored end_event
              s.event_queue.events,
        );
    remaining_nonneg = λ a. (remaining_falls a).0;
    once = λ a. omega (arith, held_same a, c.once a);
    in_range = λ a h. omega (arith, held_same a, c.in_range a h);
    not_lost = λ a h r. omega (arith, held_same a, (remaining_falls a).1, c.not_lost a h);
  }

  pub dispatch-Inv : Inv alg (dispatch arrange safety alg i s)
  unfolding dispatch enqueue_event
  dispatch-Inv = record {
    core = dispatch-Core;
    cpu = (
      omega (
        arith,
        (counts i).0,
        free,
        weigh-insert (λ (e : Event). one_if (is_cpu_event e.type)) arrange stored end_event
            s.event_queue.events,
      ),
      ground (
        arith,
        (counts i).1,
        free,
        ends-le-cpu_events i ended s.event_queue.events,
        weigh-insert (λ (e : Event). one_if (is_for i e && is_end_of ended e.type)) arrange stored
            end_event s.event_queue.events,
      ),
    );
  }
