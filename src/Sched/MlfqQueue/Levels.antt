-- ===== src/Sched/MlfqQueue/Levels.antt =====
-- Which process the MLFQ queue hands out, and what a priority boost does to it.
use cmsc125_lab.Base.{
  ltb, ◌==◌, if◌then◌else◌, Bool-cases, length, update, count, All, pos, ℕ, zero, suc, ◌+◌, ◌<◌,
  ◌≡◌, refl, ap, subst, ◌≢◌, inl, inr, true, Option, none, some, List, [], ◌∷◌, ◌++◌, map, arith,
}
use cmsc125_lab.Sched.MlfqQueue.{
  MlfqQueue, take_first, after_take, mlfq_dequeue, all_processes, reset_all, boosted_levels,
  mlfq_priority_boost,
}
use cmsc125_lab.Sched.Process.{Process, Store}

-- `i` is the first process of level `l`, and the levels above it are empty.
abbrev pub FirstAt : ℕ → ℕ → List (List ℕ) → Type 0
FirstAt i l [] = ⊥
FirstAt i zero ([] ∷ qs) = ⊥
FirstAt i zero ((j ∷ q) ∷ qs) = i ≡ j
FirstAt i (suc l) ([] ∷ qs) = FirstAt i l qs
FirstAt i (suc l) ((j ∷ q) ∷ qs) = ⊥

-- The levels without the first process of level `l`.
pub drop_first : ℕ → List (List ℕ) → List (List ℕ)
drop_first l [] = []
drop_first zero ([] ∷ qs) = [] ∷ qs
drop_first zero ((j ∷ q) ∷ qs) = q ∷ qs
drop_first (suc l) (q ∷ qs) = q ∷ drop_first l qs

abbrev pub TakesHighest : List (List ℕ) → Option (ℕ × List (List ℕ)) → Type 0
TakesHighest qs none = all_processes qs ≡ []
TakesHighest qs (some (i, rest)) = (l : ℕ) × FirstAt i l qs × (rest ≡ drop_first l qs)

lift_level :
    (qs : List (List ℕ)) (o : Option (ℕ × List (List ℕ)))
    → TakesHighest qs o
    → TakesHighest ([] ∷ qs) (elim o [ none ↦ none | some (i, qs') ↦ some (i, [] ∷ qs') ])
unfolding drop_first all_processes
lift_level qs none h = h
lift_level qs (some (i, rest)) (l, f, e) = (suc l, f, ap (λ (r : List (List ℕ)). [] ∷ r) e)

take_first-TakesHighest : (qs : List (List ℕ)) → TakesHighest qs (take_first qs)
unfolding take_first drop_first all_processes
take_first-TakesHighest [] = refl
take_first-TakesHighest ([] ∷ qs) = lift_level qs (take_first qs) (take_first-TakesHighest qs)
take_first-TakesHighest ((i ∷ q) ∷ qs) = (0, refl, refl)

-- What `mlfq_dequeue` returns: the first process of the highest level that has one, which alone is
-- taken out; nothing only if every level is empty.
abbrev pub DequeuesHighest : MlfqQueue → Option (ℕ × MlfqQueue) → Type 0
DequeuesHighest q none = all_processes q.level_queues ≡ []
DequeuesHighest q (some (i, q')) =
    (l : ℕ) × FirstAt i l q.level_queues × (q'.level_queues ≡ drop_first l q.level_queues)

after_take-DequeuesHighest :
    (q : MlfqQueue) (o : Option (ℕ × List (List ℕ)))
    → TakesHighest q.level_queues o
    → DequeuesHighest q (after_take q o)
after_take-DequeuesHighest q none h = h
after_take-DequeuesHighest q (some (i, rest)) h = h

-- `mlfq_dequeue` serves the highest level that is not empty, in the order of that level.
pub mlfq_dequeue-DequeuesHighest : (q : MlfqQueue) → DequeuesHighest q (mlfq_dequeue q)
unfolding mlfq_dequeue
mlfq_dequeue-DequeuesHighest q =
    after_take-DequeuesHighest q (take_first q.level_queues)
      (take_first-TakesHighest q.level_queues)

all_processes-empty : (qs : List (List ℕ)) → all_processes (map (λ _. []) qs) ≡ []
unfolding all_processes
all_processes-empty [] = refl
all_processes-empty (q ∷ qs) = all_processes-empty qs

append-none : (is : List ℕ) {js : List ℕ} → js ≡ [] → is ++ js ≡ is
append-none [] e = e
append-none (i ∷ is) e = ap (λ (r : List ℕ). i ∷ r) (append-none is e)

pub all_processes-boosted :
    (is : List ℕ) (qs : List (List ℕ)) → 0 < length qs → all_processes (boosted_levels is qs) ≡ is
unfolding all_processes boosted_levels
all_processes-boosted is [] h = absurd (omega arith)
all_processes-boosted is (q ∷ qs) h = append-none is (all_processes-empty qs)

abbrev pub cleared : Process → Process
cleared p = record p { priority = pos 0; time_in_queue = pos 0 }

cleared-again : (p : Process) → cleared (cleared p) ≡ cleared p
cleared-again p = refl

-- What the reset loop leaves in the entry of a process that it resets `n` times.
abbrev pub ClearedIf : ℕ → Process → Process → Type 0
ClearedIf n p p' = p' ≡ (if ltb 0 n then cleared p else p)

cleared_if : (n : ℕ) (p p' : Process) → ClearedIf n (cleared p) p' → ClearedIf (1 + n) p p'
cleared_if n p p' h =
    let some_left : ltb 0 (1 + n) ≡ true = ground arith in
    rw some_left (elim (Bool-cases (ltb 0 n)) [ inl e ↦ simp e at h | inr e ↦ simp e at h ])

not_cleared : (n : ℕ) (p p' : Process) → ClearedIf n p p' → ClearedIf (0 + n) p p'
not_cleared n p p' h = let e : 0 + n ≡ n = omega arith in rw e h

update-same : (ps : Store) (i j : ℕ) → i ≡ j → update ps i (cleared (ps i)) j ≡ cleared (ps j)
update-same ps i j e = subst (λ k. update ps i (cleared (ps i)) k ≡ cleared (ps k)) e (ground arith)

update-other : (ps : Store) (i j : ℕ) → i ≢ j → update ps i (cleared (ps i)) j ≡ ps j
update-other ps i j ne = ground arith

reset_all-ClearedIf :
    (ps : Store) (is : List ℕ) (j : ℕ) → ClearedIf (count j is) (ps j) (reset_all ps is j)
unfolding reset_all
reset_all-ClearedIf ps [] j = refl
reset_all-ClearedIf ps (i ∷ is) j =
    let ps' = update ps i (cleared (ps i)) in
    let rest = reset_all-ClearedIf ps' is j in
    elim (Bool-cases (j == i)) [
      | inl e ↦ rw e (
          cleared_if (count j is) (ps j) _ (
            subst (λ p. ClearedIf (count j is) p (reset_all ps' is j))
              (update-same ps i j (ground arith)) rest))
      | inr e ↦ rw e (
          not_cleared (count j is) (ps j) _ (
            subst (λ p. ClearedIf (count j is) p (reset_all ps' is j))
              (update-other ps i j (ground arith)) rest))
    ]

-- The first level holds `is`, and every level below it is empty.
abbrev pub AllAtTop : List ℕ → List (List ℕ) → Type 0
AllAtTop is [] = ⊥
AllAtTop is (q ∷ qs) = (q ≡ is) × All (λ (r : List ℕ). r ≡ []) qs

emptied-All : (qs : List (List ℕ)) → All (λ (r : List ℕ). r ≡ []) (map (λ (q : List ℕ). []) qs)
emptied-All [] = tt
emptied-All (q ∷ qs) = (refl, emptied-All qs)

boosted-AllAtTop :
    (is : List ℕ) (qs : List (List ℕ)) → 0 < length qs → AllAtTop is (boosted_levels is qs)
unfolding boosted_levels
boosted-AllAtTop is [] h = absurd (omega arith)
boosted-AllAtTop is (q ∷ qs) h = (refl, emptied-All qs)

-- What a boost makes of the queue and the processes: the same processes in the same order, all at
-- level 0, each with its priority and its time in the queue at 0; no other process is touched.
pub record Boosted (ps : Store) (q : MlfqQueue) (after : Store × MlfqQueue) : Type 0 where
  pub same_order : all_processes after.1.level_queues ≡ all_processes q.level_queues
  pub at_top : AllAtTop (all_processes q.level_queues) after.1.level_queues
  pub reset_queued : (j : ℕ) → ClearedIf (count j (all_processes q.level_queues)) (ps j) (after.0 j)

-- `mlfq_priority_boost`, on a queue with at least one level, loses no process and keeps their order,
-- and resets exactly the processes that wait.
pub mlfq_priority_boost-Boosted :
    (ps : Store) (q : MlfqQueue)
    → 0 < length q.level_queues
    → Boosted ps q (mlfq_priority_boost ps q)
unfolding mlfq_priority_boost
mlfq_priority_boost-Boosted ps q h = record {
  same_order = all_processes-boosted (all_processes q.level_queues) q.level_queues h;
  at_top = boosted-AllAtTop (all_processes q.level_queues) q.level_queues h;
  reset_queued = reset_all-ClearedIf ps (all_processes q.level_queues);
}
