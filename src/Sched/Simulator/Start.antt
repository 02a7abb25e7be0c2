-- ===== src/Sched/Simulator/Start.antt =====
-- The state from which the event loop starts satisfies the invariant.
use cmsc125_lab.Base.{
  ltb, leb, if◌then◌else◌, length, count, ℤ, pos, ◌≤ℤ◌, ◌<ℤ◌, ℕ, zero, suc, ◌+◌, ◌*◌, ◌≡◌, refl,
  sym, ◌∙◌, subst, ◌≢◌, Bool, ◌&&◌, none, some, [], arith,
}
use cmsc125_lab.Sched.EventQueue.{
  EventQueue, construct_event_queue, enqueue_event, is_arrival, is_for,
}
use cmsc125_lab.Sched.EventQueue.Counts.{one_if, weigh, weigh-insert, length-insert}
use cmsc125_lab.Sched.EventQueue.Order.{IsTimely, enqueue-IsTimely}
use cmsc125_lab.Sched.Process.{Store, arrival, Event, construct_event}
use cmsc125_lab.Sched.Simulator.{enqueue_arrivals, initialize_events}
use cmsc125_lab.Sched.Simulator.Invariant.{
  kind, is_cpu_event, cpu_events, is_boost, boosts, arrivals, Core, on_cpu, Cpu, Inv,
}
use cmsc125_lab.Sched.Simulator.Measure.{event_weight, event_weights, left, measure}
use cmsc125_lab.Sched.State.{SchedulerState, Algorithm, rr, mlfq, sort_by_burst_time}
use cmsc125_lab.Sched.WaitingQueue.Contents.{contents, IsExact}

-- What `main` and `run_comparison` hand to `simulate_scheduler`: fresh processes with times that
-- are not negative, an empty waiting queue of the algorithm, and for RR a positive quantum.
pub record IsReady (alg : Algorithm) (s : SchedulerState) : Type 0 where
  pub no_mlfq : alg ≢ mlfq
  pub paired : kind s.waiting ≡ alg
  pub exact : IsExact s.waiting
  pub empty : contents s.waiting ≡ []
  pub idle : s.running ≡ none
  pub quantum_pos : alg ≡ rr → pos 0 <ℤ s.quantum_time
  pub arrivals_later : (a : ℕ) → s.current_time ≤ℤ (s.processes a).arrival_time
  pub bursts_nonneg : (a : ℕ) → pos 0 ≤ℤ (s.processes a).burst_time
  pub unspent : (a : ℕ) → (s.processes a).remaining_time ≡ (s.processes a).burst_time

abbrev range_hit : ℕ → ℕ → ℕ → ℕ
range_hit a i n = if leb i a && ltb a (i + n) then 1 else 0

-- The queue after the arrivals of `n` processes from `i` on have been put into `q`.
record Arrived (i n : ℕ) (q q' : EventQueue) : Type 0 where
  size_kept : q.size ≡ length q.events → q'.size ≡ length q'.events
  no_more_cpu : cpu_events q'.events ≡ cpu_events q.events
  no_more_boosts : boosts q'.events ≡ boosts q.events
  one_each : (a : ℕ) → arrivals a q'.events ≡ range_hit a i n + arrivals a q.events
  heavier : event_weights q'.events ≡ 3 * n + event_weights q.events

abbrev arrival_event : Store → ℕ → Event
arrival_event ps i = construct_event (ps i).arrival_time arrival (some i)

Arrived-enqueue :
    (arrange : Bool) (ps : Store) (i : ℕ) (q : EventQueue)
    → Arrived i 1 q (enqueue_event arrange ps q (arrival_event ps i))
unfolding enqueue_event construct_event
Arrived-enqueue arrange ps i q =
    let added = λ (w : Event → ℕ). weigh-insert w arrange ps (arrival_event ps i) q.events in
    record {
      size_kept = λ h. omega (arith, h, length-insert arrange ps (arrival_event ps i) q.events);
      no_more_cpu = ground (arith, added (λ (e : Event). one_if (is_cpu_event e.type)));
      no_more_boosts = ground (arith, added (λ (e : Event). one_if (is_boost e.type)));
      one_each =
          λ a. ground (arith, added (λ (e : Event). one_if (is_arrival e.type && is_for a e)));
      heavier = ground (arith, added (λ (e : Event). event_weight e.type));
    }

enqueue_arrivals-Arrived :
    (alg : Algorithm) (ps : Store) (n i : ℕ) (q : EventQueue)
    → Arrived i n q (enqueue_arrivals alg ps n i q)
unfolding enqueue_arrivals
enqueue_arrivals-Arrived alg ps zero i q = record {
  size_kept = λ h. h;
  no_more_cpu = refl;
  no_more_boosts = refl;
  one_each = λ a. ground arith;
  heavier = omega arith;
}
enqueue_arrivals-Arrived alg ps (suc n) i q =
    let q1 = enqueue_event (sort_by_burst_time alg) ps q (arrival_event ps i) in
    let f = Arrived-enqueue (sort_by_burst_time alg) ps i q in
    let r = enqueue_arrivals-Arrived alg ps n (suc i) q1 in
    record {
      size_kept = λ h. r.size_kept (f.size_kept h);
      no_more_cpu = r.no_more_cpu ∙ f.no_more_cpu;
      no_more_boosts = r.no_more_boosts ∙ f.no_more_boosts;
      one_each = λ a. ground (arith, r.one_each a, f.one_each a);
      heavier = omega (arith, r.heavier, f.heavier);
    }

enqueue_arrivals-IsTimely :
    (alg : Algorithm) (ps : Store) (t : ℤ) (n i : ℕ) (q : EventQueue)
    → ((a : ℕ) → t ≤ℤ (ps a).arrival_time)
    → IsTimely t q
    → IsTimely t (enqueue_arrivals alg ps n i q)
unfolding enqueue_arrivals construct_event
enqueue_arrivals-IsTimely alg ps t zero i q h v = v
enqueue_arrivals-IsTimely alg ps t (suc n) i q h v =
    enqueue_arrivals-IsTimely alg ps t n (suc i) _ h
      (enqueue-IsTimely (sort_by_burst_time alg) ps t q (arrival_event ps i) (h i) v)

initial_events :
    (alg : Algorithm) (s : SchedulerState)
    → alg ≢ mlfq
    → initialize_events alg s
      ≡ enqueue_arrivals alg s.processes s.num_processes 0 construct_event_queue
unfolding initialize_events
initial_events mlfq s h = absurd (h refl)
initial_events _ s h = refl

abbrev pub started : Algorithm → SchedulerState → SchedulerState
started alg s = record s { event_queue = initialize_events alg s }

module _ {alg : Algorithm} {s : SchedulerState} (r : IsReady alg s) where
  abbrev q0 : EventQueue
  q0 = enqueue_arrivals alg s.processes s.num_processes 0 construct_event_queue

  arrived : Arrived 0 s.num_processes construct_event_queue q0
  arrived = enqueue_arrivals-Arrived alg s.processes s.num_processes 0 construct_event_queue

  held_at_start :
      (a : ℕ) → arrivals a q0.events + count a (contents s.waiting) ≡ range_hit a 0 s.num_processes
  unfolding construct_event_queue weigh
  held_at_start a = rw r.empty (omega (arith, arrived.one_each a))

  start-Core : Core alg (λ _. 0) (record s { event_queue = q0 })
  unfolding construct_event_queue weigh
  start-Core = record {
    exact = r.exact;
    paired = r.paired;
    no_mlfq = r.no_mlfq;
    quantum_pos = r.quantum_pos;
    timely =
        enqueue_arrivals-IsTimely alg s.processes s.current_time s.num_processes 0
          construct_event_queue r.arrivals_later (record { sorted = tt; not_before = tt });
    events_counted = arrived.size_kept refl;
    no_boosts = arrived.no_more_boosts;
    remaining_nonneg = λ a. rw (r.unspent a) (r.bursts_nonneg a);
    once = λ a. ground (arith, held_at_start a);
    in_range = λ a h. ground (arith, held_at_start a);
    not_lost = λ a h p. ground (arith, held_at_start a);
  }

  -- A simulation that starts ready satisfies the invariant once `initialize_events` has run.
  pub start-Inv : Inv alg (started alg s)
  unfolding construct_event_queue weigh
  start-Inv =
      subst (λ q. Inv alg (record s { event_queue = q })) (sym (initial_events alg s r.no_mlfq))
        (record {
          core =
              subst (λ o. Core alg (on_cpu o) (record s { event_queue = q0 })) (sym r.idle)
                start-Core;
          cpu =
              subst (λ o. Cpu s.processes o s.waiting q0.events) (sym r.idle)
                (arrived.no_more_cpu, r.empty);
        })

  -- The measure at the start: three for each arrival, and twice the bursts.
  pub measure-start :
      measure (started alg s) ≡ 2 * left s.processes s.num_processes + 3 * s.num_processes
  unfolding measure construct_event_queue weigh
  measure-start = rw (initial_events alg s r.no_mlfq, r.empty) (omega (arith, arrived.heavier))
