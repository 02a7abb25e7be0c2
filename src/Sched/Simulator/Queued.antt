-- ===== src/Sched/Simulator/Queued.antt =====
-- The event queue and the waiting queue in the handlers of src/simulator.c, before the invariant is
-- restored.
use cmsc125_lab.Base.{
  Bool-cases, length, ℕ, ◌+◌, ◌≤◌, ◌≡◌, refl, ap, inl, inr, true, ◌&&◌, some, List, [], ◌∷◌, arith,
}
use cmsc125_lab.Sched.EventQueue.{EventQueue, dequeue_event, is_arrival, is_for, unlink_event}
use cmsc125_lab.Sched.EventQueue.Counts.{one_if, weigh}
use cmsc125_lab.Sched.EventQueue.Order.{dequeue-IsTimely}
use cmsc125_lab.Sched.Process.{Process, Event}
use cmsc125_lab.Sched.Simulator.Invariant.{
  is_cpu_event, cpu_events, is_boost, boosts, arrivals, is_end_of, ends, Core,
}
use cmsc125_lab.Sched.State.{SchedulerState, Algorithm}

-- What is left of the queue when the pending event of `r` is taken out of it.
pub record Unlinked (r : ℕ) (es : List Event) : Type 0 where
  pub found : (unlink_event r es).1 ≡ true
  pub shorter : length (unlink_event r es).0 + 1 ≡ length es
  pub cpu_less : cpu_events (unlink_event r es).0 + 1 ≡ cpu_events es
  pub same_boosts : boosts (unlink_event r es).0 ≡ boosts es
  pub same_arrivals : (a : ℕ) → arrivals a (unlink_event r es).0 ≡ arrivals a es

pub unlink_event-Unlinked :
    (r : ℕ) (p : Process) (es : List Event)
    → arrivals r es ≡ 0
    → boosts es ≡ 0
    → 1 ≤ ends r p es
    → Unlinked r es
unfolding weigh unlink_event
unlink_event-Unlinked r p [] ha hb he = absurd (omega arith)
unlink_event-Unlinked r p (e ∷ es) ha hb he = elim (Bool-cases (is_for r e)) [
  | inl mine ↦ record {
    found = ground arith;
    shorter = ground arith;
    cpu_less = ground arith;
    same_boosts = ground arith;
    same_arrivals = λ a. ground arith;
  }
  | inr other ↦
      let v = unlink_event-Unlinked r p es (ground arith) (ground arith) (ground arith) in
      record {
        found = ground (arith, v.found);
        shorter = ground (arith, v.shorter);
        cpu_less = ground (arith, v.cpu_less);
        same_boosts = ground (arith, v.same_boosts);
        same_arrivals = λ a. ground (arith, v.same_arrivals a);
      }
]

-- The state after `dequeue_event`, with the event `e` in hand.
abbrev pub popped : SchedulerState → Event × EventQueue → SchedulerState
popped s (e, q) = record s { event_queue = q; current_time = e.time }

record Popped (q q' : EventQueue) (e : Event) : Type 0 where
  split : q.events ≡ e ∷ q'.events
  counted : q.size ≡ length q.events → q'.size ≡ length q'.events

dequeue_event-Popped :
    (q q' : EventQueue) (e : Event) → dequeue_event q ≡ some (e, q') → Popped q q' e
unfolding dequeue_event
dequeue_event-Popped q q' e h = go q.events refl
  where
    go : (es : List Event) → q.events ≡ es → Popped q q' e
    go [] p = ground arith
    go (c ∷ es) p = record { split = ground arith; counted = λ n. ground arith }

-- `state->current_time` and the queue after an event `e` has been taken out, and where that leaves
-- each process: `extra` changes by the arrival that `e` was.
module _ {alg : Algorithm} {s : SchedulerState} {x : ℕ → ℕ} (c : Core alg x s) (e : Event)
    (q : EventQueue) (d : dequeue_event s.event_queue ≡ some (e, q)) where
  Popped-facts : Popped s.event_queue q e
  Popped-facts = dequeue_event-Popped s.event_queue q e d

  pub weigh-popped : (w : Event → ℕ) → weigh w s.event_queue.events ≡ w e + weigh w q.events
  unfolding weigh
  weigh-popped w = ap (weigh w) Popped-facts.split

  pub popped-Core :
      (y : ℕ → ℕ)
      → ((a : ℕ) → y a ≡ one_if (is_arrival e.type && is_for a e) + x a)
      → Core alg y (popped s (e, q))
  popped-Core y h = record {
    exact = c.exact;
    paired = c.paired;
    no_mlfq = c.no_mlfq;
    quantum_pos = c.quantum_pos;
    timely = (dequeue-IsTimely s.current_time s.event_queue q e d c.timely).1;
    events_counted = Popped-facts.counted c.events_counted;
    no_boosts = omega (arith, c.no_boosts, weigh-popped (λ (e : Event). one_if (is_boost e.type)));
    remaining_nonneg = c.remaining_nonneg;
    once = λ a. omega (
      arith,
      h a,
      c.once a,
      weigh-popped (λ (e : Event). one_if (is_arrival e.type && is_for a e)),
    );
    in_range = λ a lt. omega (
      arith,
      h a,
      c.in_range a lt,
      weigh-popped (λ (e : Event). one_if (is_arrival e.type && is_for a e)),
    );
    not_lost = λ a lt r. omega (
      arith,
      h a,
      c.not_lost a lt r,
      weigh-popped (λ (e : Event). one_if (is_arrival e.type && is_for a e)),
    );
  }

  -- The event in hand counts once among the CPU events that were pending.
  pub cpu_events-popped :
      cpu_events s.event_queue.events ≡ one_if (is_cpu_event e.type) + cpu_events q.events
  cpu_events-popped = weigh-popped (λ (e : Event). one_if (is_cpu_event e.type))

  pub ends-popped :
      (r : ℕ) (p : Process)
      → ends r p s.event_queue.events
        ≡ one_if (is_for r e && is_end_of p e.type) + ends r p q.events
  ends-popped r p = weigh-popped (λ (e : Event). one_if (is_for r e && is_end_of p e.type))
