-- ===== src/Sched/WaitingQueue/Serving.antt =====
-- The order in which the round-robin queue of src/data-structures/rr-queue.c hands out its processes.
use mathlib.Core.List.{append-nil, append_assoc}
use cmsc125_lab.Base.{
  length, pos, ℕ, zero, suc, ◌-◌, ◌≤◌, ◌≡◌, refl, sym, ap, ◌∙◌, none, some, List, [], ◌∷◌, ◌++◌,
  arith,
}
use cmsc125_lab.Sched.Process.{construct_process}
use cmsc125_lab.Sched.RrQueue.{
  RrQueue, rr_enqueue, rr_requeue, rr_append_pending_to_active, rr_new_round, rr_take_active,
  rr_dequeue,
}
use cmsc125_lab.Sched.WaitingQueue.{rr_queue, enqueue}
use cmsc125_lab.Sched.WaitingQueue.Contents.{IsExact}
use cmsc125_lab.Sched.WaitingQueue.Contract.{enqueue-Enqueued, rr_requeue-Enqueued}

-- The processes that the next `n` dequeues hand out, until one finds the queue empty.
pub serve_all : ℕ → RrQueue → List ℕ
serve_all zero q = []
serve_all (suc n) q = elim (rr_dequeue q) [ none ↦ [] | some (i, q') ↦ i ∷ serve_all n q' ]

-- Dequeues after the first process has been chosen from the active ones.
serve_active :
    (n : ℕ) (xs : List ℕ) (q : RrQueue)
    → ((q' : RrQueue)
        → length (q'.active ++ (q'.round ++ q'.pending)) ≤ n
        → serve_all n q' ≡ q'.active ++ (q'.round ++ q'.pending))
    → length (xs ++ (q.round ++ q.pending)) ≤ suc n
    → (xs ≡ [] → q.round ++ q.pending ≡ [])
    → elim (rr_take_active xs q) [ none ↦ [] | some (i, q') ↦ i ∷ serve_all n q' ]
      ≡ xs ++ (q.round ++ q.pending)
unfolding rr_take_active
serve_active n [] q ih h e = sym (e refl)
serve_active n (x ∷ xs) q ih h e =
    ap (λ (l : List ℕ). x ∷ l) (ih (record q { active = xs; size = q.size - 1 }) (omega arith))

serve_round :
    (n : ℕ) (xs : List ℕ) (q : RrQueue)
    → ((q' : RrQueue)
        → length (q'.active ++ (q'.round ++ q'.pending)) ≤ n
        → serve_all n q' ≡ q'.active ++ (q'.round ++ q'.pending))
    → q.active ≡ xs
    → length (xs ++ (q.round ++ q.pending)) ≤ suc n
    → let q' = rr_new_round xs q in
      elim (rr_take_active q'.active q') [ none ↦ [] | some (i, q2) ↦ i ∷ serve_all n q2 ]
      ≡ xs ++ (q.round ++ q.pending)
unfolding rr_new_round rr_append_pending_to_active rr_take_active
serve_round n [] q ih e h =
    serve_active n (q.round ++ q.pending)
      (record q { active = q.round ++ q.pending; round = []; pending = [] }) ih
      (rw (append-nil (q.round ++ q.pending)) h) (λ _. refl)
    ∙ append-nil (q.round ++ q.pending)
serve_round n (x ∷ xs) q ih e h = rw e (serve_active n (x ∷ xs) q ih h (λ none_left. cc))

-- With enough dequeues: the active processes, then the round buffer, then the new arrivals.
serve_all-contents :
    (n : ℕ) (q : RrQueue)
    → length (q.active ++ (q.round ++ q.pending)) ≤ n
    → serve_all n q ≡ q.active ++ (q.round ++ q.pending)
unfolding serve_all rr_dequeue
serve_all-contents zero q h = no_entries (q.active ++ (q.round ++ q.pending)) h
  where
    no_entries : (xs : List ℕ) → length xs ≤ 0 → [] ≡ xs
    no_entries [] l = refl
    no_entries (x ∷ xs) l = absurd (omega arith)
serve_all-contents (suc n) q h = serve_round n q.active q (serve_all-contents n) refl h

-- A process that is preempted, and then a new arrival, in an exact queue: as many dequeues as the queue
-- has entries then hand out the active processes, those preempted before, the preempted one, those that
-- had arrived, and the new arrival, each in its order.
pub rr_requeue-Serves :
    (q : RrQueue) (i j : ℕ)
    → IsExact (rr_queue q)
    → let q' = rr_enqueue (rr_requeue q i) j in
      serve_all q'.size q' ≡ q.active ++ (q.round ++ i ∷ (q.pending ++ j ∷ []))
unfolding rr_enqueue rr_requeue
rr_requeue-Serves q i j v =
    let q' = rr_enqueue (rr_requeue q i) j in
    let exact =
      (enqueue-Enqueued (λ _. construct_process [] (pos 0) (pos 0)) (rr_queue (rr_requeue q i)) j
        (rr_requeue-Enqueued q i v).exact).exact in
    serve_all-contents q'.size q' (unfold enqueue in omega (arith, exact.size_exact))
    ∙ ap (λ (l : List ℕ). q.active ++ l) (append_assoc q.round (i ∷ []) (q.pending ++ j ∷ []))
