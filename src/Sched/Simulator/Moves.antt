-- ===== src/Sched/Simulator/Moves.antt =====
-- How the parts of a handler move a process: to a waiting queue, off the CPU, or to the CPU.
use cmsc125_lab.Base.{
  ◌==◌, Bool-cases, length, pos, ◌<ℤ◌, ℕ, ◌+◌, ◌≤◌, ◌≡◌, refl, sym, ◌∙◌, inl, inr, Bool, Option,
  none, some, List, [], ◌∷◌, arith,
}
use cmsc125_lab.Sched.Process.{Store}
use cmsc125_lab.Sched.Simulator.{enqueue_waiting, dispatch_taken, dispatch_next, requeue_round}
use cmsc125_lab.Sched.Simulator.Dispatch.{dispatch-Inv}
use cmsc125_lab.Sched.Simulator.Invariant.{
  kind, cpu_events, Core, Inv, kind-enqueue, enqueue-store, kind-dequeue,
}
use cmsc125_lab.Sched.State.{SchedulerState, Algorithm, rr}
use cmsc125_lab.Sched.WaitingQueue.{
  WaitingQueue, fcfs_queue, sjf_queue, stcf_queue, rr_queue, mlfq_queue, queue_size, dequeue,
}
use cmsc125_lab.Sched.WaitingQueue.Contents.{contents, IsExact, hit}
use cmsc125_lab.Sched.WaitingQueue.Contract.{
  Enqueued, enqueue-Enqueued, rr_requeue-Enqueued, Dequeued, dequeue-Dequeued,
}

module _ {alg : Algorithm} {x : ℕ → ℕ} {s : SchedulerState} (c : Core alg x s) where
  -- Writes to fields of the processes other than the remaining time, and to `running`.
  pub Core-store :
      (r : Option ℕ) (ps : Store)
      → ((a : ℕ) → (ps a).remaining_time ≡ (s.processes a).remaining_time)
      → Core alg x (record s { running = r; processes = ps })
  Core-store r ps h = record {
    exact = c.exact;
    paired = c.paired;
    no_mlfq = c.no_mlfq;
    quantum_pos = c.quantum_pos;
    timely = c.timely;
    events_counted = c.events_counted;
    no_boosts = c.no_boosts;
    remaining_nonneg = λ a. rw (h a) (c.remaining_nonneg a);
    once = c.once;
    in_range = c.in_range;
    not_lost = λ a lt r. c.not_lost a lt (rw (h a) at r);
  }

  -- A process with nothing left may be let go.
  pub Core-drop :
      (y : ℕ → ℕ)
      → ((a : ℕ) → y a ≤ x a)
      → ((a : ℕ) → pos 0 <ℤ (s.processes a).remaining_time → y a ≡ x a)
      → Core alg y s
  Core-drop y le same = record {
    exact = c.exact;
    paired = c.paired;
    no_mlfq = c.no_mlfq;
    quantum_pos = c.quantum_pos;
    timely = c.timely;
    events_counted = c.events_counted;
    no_boosts = c.no_boosts;
    remaining_nonneg = c.remaining_nonneg;
    once = λ a. omega (arith, le a, c.once a);
    in_range = λ a lt. omega (arith, le a, c.in_range a lt);
    not_lost = λ a lt r. omega (arith, same a r, c.not_lost a lt r);
  }

  -- A process in hand goes to the waiting queue.
  pub Core-waiting :
      (y : ℕ → ℕ) (i : ℕ) (w : WaitingQueue)
      → Enqueued i s.waiting w
      → kind w ≡ kind s.waiting
      → ((a : ℕ) → x a ≡ hit a i + y a)
      → Core alg y (record s { waiting = w })
  Core-waiting y i w n k h = record {
    exact = n.exact;
    paired = k ∙ c.paired;
    no_mlfq = c.no_mlfq;
    quantum_pos = c.quantum_pos;
    timely = c.timely;
    events_counted = c.events_counted;
    no_boosts = c.no_boosts;
    remaining_nonneg = c.remaining_nonneg;
    once = λ a. omega (arith, h a, n.adds.counted a, c.once a);
    in_range = λ a lt. omega (arith, h a, n.adds.counted a, c.in_range a lt);
    not_lost = λ a lt r. omega (arith, h a, n.adds.counted a, c.not_lost a lt r);
  }

  pub processes-enqueue_waiting : (i : ℕ) → (enqueue_waiting i s).processes ≡ s.processes
  unfolding enqueue_waiting
  processes-enqueue_waiting i =
      enqueue-store s.processes s.waiting i (λ e. c.no_mlfq (sym c.paired ∙ e))

  pub enqueue_waiting-Core :
      (y : ℕ → ℕ) (i : ℕ) → ((a : ℕ) → x a ≡ hit a i + y a) → Core alg y (enqueue_waiting i s)
  unfolding enqueue_waiting
  enqueue_waiting-Core y i h = rw (processes-enqueue_waiting i) (
      Core-waiting y i _ (enqueue-Enqueued s.processes s.waiting i c.exact)
        (kind-enqueue s.processes s.waiting i) h)

pub requeue_round-Enqueued :
    (w : WaitingQueue) (r : ℕ) → kind w ≡ rr → IsExact w → Enqueued r w (requeue_round w r)
unfolding requeue_round
requeue_round-Enqueued (rr_queue q) r k v = rr_requeue-Enqueued q r v
requeue_round-Enqueued (fcfs_queue q) r k v = cc
requeue_round-Enqueued (sjf_queue q) r k v = cc
requeue_round-Enqueued (stcf_queue q) r k v = cc
requeue_round-Enqueued (mlfq_queue q) r k v = cc

pub kind-requeue_round : (w : WaitingQueue) (r : ℕ) → kind (requeue_round w r) ≡ kind w
unfolding requeue_round
kind-requeue_round (rr_queue q) r = refl
kind-requeue_round _ r = refl

length-eq-zero : (xs : List ℕ) → length xs ≡ 0 → xs ≡ []
length-eq-zero [] h = refl
length-eq-zero (x ∷ xs) h = absurd (omega arith)

module _ (arrange safety : Bool) {alg : Algorithm} (s : SchedulerState) (c : Core alg (λ _. 0) s)
    (free : cpu_events s.event_queue.events ≡ 0) where
  -- The process that the queue hands out is in hand.
  pub taken-Core :
      (i : ℕ) (w : WaitingQueue)
      → dequeue s.waiting ≡ some (i, w)
      → Dequeued s.waiting (some (i, w))
      → Core alg (λ a. hit a i) (record s { waiting = w })
  taken-Core i w e d = record {
    exact = d.1;
    paired = kind-dequeue s.waiting w i e ∙ c.paired;
    no_mlfq = c.no_mlfq;
    quantum_pos = c.quantum_pos;
    timely = c.timely;
    events_counted = c.events_counted;
    no_boosts = c.no_boosts;
    remaining_nonneg = c.remaining_nonneg;
    once = λ a. omega (arith, d.0.counted a, c.once a);
    in_range = λ a lt. omega (arith, d.0.counted a, c.in_range a lt);
    not_lost = λ a lt r. omega (arith, d.0.counted a, c.not_lost a lt r);
  }

  dispatch_taken-Inv :
      (o : Option (ℕ × WaitingQueue))
      → dequeue s.waiting ≡ o
      → Dequeued s.waiting o
      → Inv alg (dispatch_taken arrange safety alg s o)
  unfolding dispatch_taken
  dispatch_taken-Inv none e d = record {
    core = Core-store c none s.processes (λ _. refl);
    cpu = (free, d);
  }
  dispatch_taken-Inv (some (i, w)) e d =
      dispatch-Inv arrange safety alg i (record s { waiting = w }) (taken-Core i w e d) free

  -- With the CPU free and nobody in hand, dispatching the next process gives the invariant.
  pub dispatch_next-Inv : Inv alg (dispatch_next arrange safety alg s)
  unfolding dispatch_next
  dispatch_next-Inv = elim (Bool-cases (queue_size s.waiting == 0)) [
    | inl z ↦
        rw (z, dispatch_next)
          (record {
            core = Core-store c none s.processes (λ _. refl);
            cpu = (free, length-eq-zero (contents s.waiting) (ground (arith, c.exact.size_exact)));
          })
    | inr nz ↦
        rw (nz, dispatch_next)
          (dispatch_taken-Inv (dequeue s.waiting) refl (dequeue-Dequeued s.waiting c.exact))
  ]
