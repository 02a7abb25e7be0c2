-- ===== src/Sched/WaitingQueue/Contract.antt =====
-- What a waiting queue promises whichever policy it has: it holds the processes that were put in
-- and not yet taken out, each as often, and its `size` counts them.
use mathlib.Core.List.{append-nil}
use cmsc125_lab.Base.{
  length, ℕ, suc, ◌-◌, ◌≡◌, refl, ◌∙◌, Option, none, some, List, [], ◌∷◌, ◌++◌, arith,
}
use cmsc125_lab.Sched.Chain.{
  Chain, fcfs_enqueue, chain_take, chain_dequeue, burst_key, remaining_key, sjf_enqueue,
  stcf_enqueue,
}
use cmsc125_lab.Sched.MlfqQueue.{
  MlfqQueue, clamp_level, admit, mlfq_enqueue, take_first, after_take, mlfq_dequeue, all_processes,
}
use cmsc125_lab.Sched.Process.{Store}
use cmsc125_lab.Sched.RrQueue.{
  RrQueue, rr_enqueue, rr_requeue, rr_append_pending_to_active, rr_new_round, rr_take_active,
  rr_dequeue,
}
use cmsc125_lab.Sched.WaitingQueue.{
  WaitingQueue, fcfs_queue, sjf_queue, stcf_queue, rr_queue, mlfq_queue, queue_size, enqueue,
  rewrap, dequeue,
}
use cmsc125_lab.Sched.WaitingQueue.Contents.{
  contents, LevelsOk, IsExact, Adds, Adds-append, Adds-between, Adds-before, Adds-insert_by,
  Adds-append_at, length-append_at, clamp_level_lt,
}

-- Enqueueing puts the process in once more, and keeps the size exact.
pub record Enqueued (i : ℕ) (w w' : WaitingQueue) : Type 0 where
  pub adds : Adds i (contents w) (contents w')
  pub exact : IsExact w'

enqueued :
    (i : ℕ) (w w' : WaitingQueue)
    → queue_size w' ≡ suc (queue_size w)
    → LevelsOk w'
    → IsExact w
    → Adds i (contents w) (contents w')
    → Enqueued i w w'
enqueued i w w' s l v a = record {
  adds = a;
  exact = record { size_exact = omega (arith, v.size_exact, a.longer); levels_ok = l };
}

-- Each of the five queues, given an exact queue, adds the process and stays exact.
pub enqueue-Enqueued :
    (ps : Store) (w : WaitingQueue) (i : ℕ) → IsExact w → Enqueued i w (enqueue ps w i).1
unfolding enqueue fcfs_enqueue sjf_enqueue stcf_enqueue rr_enqueue mlfq_enqueue
enqueue-Enqueued ps (fcfs_queue q) i v =
    enqueued i (fcfs_queue q) _ refl tt v (Adds-append i q.items)
enqueue-Enqueued ps (sjf_queue q) i v =
    enqueued i (sjf_queue q) _ refl tt v (Adds-insert_by burst_key ps i q.items)
enqueue-Enqueued ps (stcf_queue q) i v =
    enqueued i (stcf_queue q) _ refl tt v (Adds-insert_by remaining_key ps i q.items)
enqueue-Enqueued ps (rr_queue q) i v =
    enqueued i (rr_queue q) _ refl tt v
      (Adds-between i q.active _ _ (Adds-between i q.round _ _ (Adds-append i q.pending)))
enqueue-Enqueued ps (mlfq_queue q) i v =
    let l = v.levels_ok in
    let level = clamp_level q (admit (ps i)).priority in
    enqueued i (mlfq_queue q) _ refl
      (record {
        some_level = l.some_level;
        level_count = length-append_at q.level_queues level i ∙ l.level_count;
      })
      v
      (Adds-append_at q.level_queues level i
        (omega (arith, l.level_count, clamp_level_lt q (admit (ps i)).priority l.some_level)))

-- `rr_requeue` adds the preempted process to an exact RR queue, which stays exact.
pub rr_requeue-Enqueued :
    (q : RrQueue) (i : ℕ)
    → IsExact (rr_queue q)
    → Enqueued i (rr_queue q) (rr_queue (rr_requeue q i))
unfolding rr_requeue
rr_requeue-Enqueued q i v =
    enqueued i (rr_queue q) _ refl tt v
      (Adds-between i q.active _ _ (Adds-before i q.round _ q.pending (Adds-append i q.round)))

-- What a dequeue of an exact queue returns: nothing exactly if it is empty, and else a process that
-- it held, with the queue of the others.
abbrev pub Dequeued : WaitingQueue → Option (ℕ × WaitingQueue) → Type 0
Dequeued w none = contents w ≡ []
Dequeued w (some (i, w')) = Adds i (contents w') (contents w) × IsExact w'

first_out : (i : ℕ) (xs : List ℕ) → Adds i xs (i ∷ xs)
first_out i xs = record { longer = refl; counted = λ a. refl }

dequeued :
    (i : ℕ) (w w' : WaitingQueue)
    → queue_size w' ≡ queue_size w - 1
    → LevelsOk w'
    → IsExact w
    → Adds i (contents w') (contents w)
    → Dequeued w (some (i, w'))
dequeued i w w' s l v a =
    (a, record { size_exact = omega (arith, v.size_exact, a.longer); levels_ok = l })

chain-Dequeued :
    (f : Chain → WaitingQueue) (w : WaitingQueue) (xs : List ℕ) (n : ℕ)
    → ((q : Chain) → contents (f q) ≡ q.items)
    → ((q : Chain) → queue_size (f q) ≡ q.size)
    → ((q : Chain) → LevelsOk (f q))
    → contents w ≡ xs
    → queue_size w ≡ n
    → IsExact w
    → Dequeued w (rewrap f (chain_take xs n))
unfolding chain_take
chain-Dequeued f w [] n hc hs hl e s v = e
chain-Dequeued f w (x ∷ xs) n hc hs hl e s v =
    let q : Chain = record { items = xs; size = n - 1 } in
    dequeued x w (f q) (omega (arith, hs q)) (hl q) v (rw (hc q, e) (first_out x xs))

rr_active-Dequeued :
    (w : WaitingQueue) (xs : List ℕ) (q : RrQueue)
    → q.active ≡ xs
    → contents w ≡ xs ++ (q.round ++ q.pending)
    → queue_size w ≡ q.size
    → (xs ≡ [] → (q.round ≡ []) × (q.pending ≡ []))
    → IsExact w
    → Dequeued w (rewrap rr_queue (rr_take_active xs q))
unfolding rr_take_active
rr_active-Dequeued w [] q e c s h v = rw (c, (h refl).0, (h refl).1)
rr_active-Dequeued w (x ∷ xs) q e c s h v =
    dequeued x w (rr_queue (record q { active = xs; size = q.size - 1 })) (omega (arith, s)) tt v
      (rw c (first_out x (xs ++ (q.round ++ q.pending))))

-- A new round keeps the contents: it only moves them to the active list.
rr_round-Dequeued :
    (xs : List ℕ) (q : RrQueue)
    → q.active ≡ xs
    → IsExact (rr_queue q)
    → let q' = rr_new_round xs q in
      Dequeued (rr_queue q) (rewrap rr_queue (rr_take_active q'.active q'))
unfolding rr_new_round rr_append_pending_to_active
rr_round-Dequeued [] q e v =
    rr_active-Dequeued (rr_queue q) _ _ refl (simp (e, append-nil)) refl (λ _. (refl, refl)) v
rr_round-Dequeued (x ∷ xs) q e v =
    rr_active-Dequeued (rr_queue q) q.active q refl refl refl (λ n. cc) v

abbrev Taken : List (List ℕ) → Option (ℕ × List (List ℕ)) → Type 0
Taken qs none = all_processes qs ≡ []
Taken qs (some (i, qs')) = (all_processes qs ≡ i ∷ all_processes qs') × (length qs' ≡ length qs)

take_first-Taken : (qs : List (List ℕ)) → Taken qs (take_first qs)
unfolding take_first all_processes
take_first-Taken [] = refl
take_first-Taken ([] ∷ qs) = ground (arith, take_first-Taken qs)
take_first-Taken ((i ∷ q) ∷ qs) = (refl, refl)

mlfq-Dequeued :
    (q : MlfqQueue) (o : Option (ℕ × List (List ℕ)))
    → Taken q.level_queues o
    → IsExact (mlfq_queue q)
    → Dequeued (mlfq_queue q) (rewrap mlfq_queue (after_take q o))
mlfq-Dequeued q none e v = e
mlfq-Dequeued q (some (i, qs)) e v =
    dequeued i (mlfq_queue q) (mlfq_queue (record q { level_queues = qs; size = q.size - 1 })) refl
      (record { some_level = v.levels_ok.some_level; level_count = e.1 ∙ v.levels_ok.level_count })
      v (rw e.0 (first_out i (all_processes qs)))

-- Each of the five queues, given an exact queue, hands out one of its processes, and fails only
-- when it holds none.
pub dequeue-Dequeued : (w : WaitingQueue) → IsExact w → Dequeued w (dequeue w)
unfolding dequeue chain_dequeue rr_dequeue mlfq_dequeue
dequeue-Dequeued (fcfs_queue q) v =
    chain-Dequeued fcfs_queue (fcfs_queue q) q.items q.size (λ _. refl) (λ _. refl) (λ _. tt) refl
      refl v
dequeue-Dequeued (sjf_queue q) v =
    chain-Dequeued sjf_queue (sjf_queue q) q.items q.size (λ _. refl) (λ _. refl) (λ _. tt) refl
      refl v
dequeue-Dequeued (stcf_queue q) v =
    chain-Dequeued stcf_queue (stcf_queue q) q.items q.size (λ _. refl) (λ _. refl) (λ _. tt) refl
      refl v
dequeue-Dequeued (rr_queue q) v = rr_round-Dequeued q.active q refl v
dequeue-Dequeued (mlfq_queue q) v =
    mlfq-Dequeued q (take_first q.level_queues) (take_first-Taken q.level_queues) v
