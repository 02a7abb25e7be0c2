-- ===== src/Sched/MlfqQueue.antt =====
-- includes/data-structures/mlfq-process-queue.h and src/data-structures/mlfq-queue.c.
pub mod Levels
use cmsc125_lab.Base.{
  ◌==◌, if◌then◌else◌, replicate, update, ℤ, pos, negsuc, pos_part, ltb_ℤ, leb_ℤ, eqb_ℤ, ℕ, zero,
  suc, ◌-◌, Bool, true, false, ◌||◌, Option, none, some, List, [], ◌∷◌, ◌++◌, map,
}
use cmsc125_lab.Sched.MlfqConfig.{MlfqConfig, level_at}
use cmsc125_lab.Sched.Process.{unknown_time, Process, Store}

pub record MlfqQueue : Type 0 where
  pub level_queues : List (List ℕ)
  pub config : MlfqConfig
  pub num_levels : ℕ
  pub last_boost_time : ℤ
  pub size : ℕ

-- `construct_mlfq_process_queue`: NULL for a configuration with no level.
unfoldable pub construct_mlfq_process_queue : MlfqConfig → Option MlfqQueue
construct_mlfq_process_queue c =
    if c.num_levels == 0
    then none
    else some (record {
      level_queues = replicate c.num_levels [];
      config = c;
      num_levels = c.num_levels;
      last_boost_time = pos 0;
      size = 0;
    })

-- Appending a process to the list of one level.
unfoldable pub append_at : List (List ℕ) → ℕ → ℕ → List (List ℕ)
append_at [] level i = []
append_at (q ∷ qs) zero i = (q ++ i ∷ []) ∷ qs
append_at (q ∷ qs) (suc level) i = q ∷ append_at qs level i

-- The level of the process, at most the bottom one. The program stores no negative level, which
-- would index before the array; here it would be read as level 0.
unfoldable pub clamp_level : MlfqQueue → ℤ → ℕ
clamp_level q priority =
    if leb_ℤ (pos q.num_levels) priority then q.num_levels - 1 else pos_part priority

-- A priority of UNKNOWN_TIME marks a new arrival.
unfoldable pub admit : Process → Process
admit p =
    if eqb_ℤ p.priority unknown_time
    then record p { priority = pos 0; time_in_queue = pos 0 }
    else p

unfoldable pub mlfq_enqueue : Store → MlfqQueue → ℕ → Store × MlfqQueue
unfolding admit clamp_level
mlfq_enqueue ps q i =
    let p = admit (ps i) in
    (
      update ps i p,
      record q {
        level_queues = append_at q.level_queues (clamp_level q p.priority) i;
        size = suc q.size;
      },
    )

-- The first process of the first level that has one.
unfoldable pub take_first : List (List ℕ) → Option (ℕ × List (List ℕ))
take_first [] = none
take_first ([] ∷ qs) = elim (take_first qs) [ none ↦ none | some (i, qs') ↦ some (i, [] ∷ qs') ]
take_first ((i ∷ q) ∷ qs) = some (i, q ∷ qs)

-- The queue after a process has been taken from its levels.
abbrev pub after_take : MlfqQueue → Option (ℕ × List (List ℕ)) → Option (ℕ × MlfqQueue)
after_take q none = none
after_take q (some (i, qs)) = some (i, record q { level_queues = qs; size = q.size - 1 })

unfoldable pub mlfq_dequeue : MlfqQueue → Option (ℕ × MlfqQueue)
unfolding take_first
mlfq_dequeue q = after_take q (take_first q.level_queues)

-- A list without the first entry for the process, and whether there was one.
unfoldable pub unlink : ℕ → List ℕ → List ℕ × Bool
unlink i [] = ([], false)
unlink i (j ∷ rest) =
    let (rest', found) = unlink i rest in if i == j then (rest, true) else (j ∷ rest', found)

unfoldable pub unlink_at : ℕ → ℕ → List (List ℕ) → List (List ℕ) × Bool
unfolding unlink
unlink_at i level [] = ([], false)
unlink_at i zero (q ∷ qs) = let (q', found) = unlink i q in (q' ∷ qs, found)
unlink_at i (suc level) (q ∷ qs) = let (qs', found) = unlink_at i level qs in (q ∷ qs', found)

-- `mlfq_move_process`, which `mlfq_promote_process` and `mlfq_demote_process` call.
unfoldable pub mlfq_move_process : Store → MlfqQueue → ℕ → ℕ → Store × MlfqQueue
unfolding unlink_at append_at
mlfq_move_process ps q i level =
    let p = ps i in
    if eqb_ℤ p.priority (pos level)
    then (ps, q)
    else if ltb_ℤ p.priority (pos 0) || leb_ℤ (pos q.num_levels) p.priority
    then (ps, q)
    else let (qs, found) = unlink_at i (pos_part p.priority) q.level_queues in
      (
        update ps i (record p { priority = pos level; time_in_queue = pos 0 }),
        record q {
          level_queues = append_at qs level i;
          size = suc (if found then q.size - 1 else q.size);
        },
      )

-- `all_processes` of `mlfq_priority_boost`: level by level, each in its order.
unfoldable pub all_processes : List (List ℕ) → List ℕ
all_processes [] = []
all_processes (q ∷ qs) = q ++ all_processes qs

-- The loop that resets each process.
unfoldable pub reset_all : Store → List ℕ → Store
reset_all ps [] = ps
reset_all ps (i ∷ is) =
    reset_all (update ps i (record (ps i) { priority = pos 0; time_in_queue = pos 0 })) is

-- The levels after the boost: all processes at level 0, every other level empty.
unfoldable pub boosted_levels : List ℕ → List (List ℕ) → List (List ℕ)
boosted_levels is [] = []
boosted_levels is (q ∷ qs) = is ∷ map (λ _. []) qs

unfoldable pub mlfq_priority_boost : Store → MlfqQueue → Store × MlfqQueue
unfolding all_processes reset_all boosted_levels
mlfq_priority_boost ps q =
    let is = all_processes q.level_queues in
    (reset_all ps is, record q { level_queues = boosted_levels is q.level_queues })

unfoldable pub mlfq_get_quantum : MlfqQueue → ℤ → ℤ
mlfq_get_quantum q level =
    if ltb_ℤ level (pos 0) || leb_ℤ (pos q.num_levels) level
    then negsuc 0
    else (level_at q.config (pos_part level)).time_quantum

unfoldable pub mlfq_get_allotment : MlfqQueue → ℤ → ℤ
mlfq_get_allotment q level =
    if ltb_ℤ level (pos 0) || leb_ℤ (pos q.num_levels) level
    then negsuc 0
    else (level_at q.config (pos_part level)).allotment
