-- ===== src/Sched/RrQueue.antt =====
-- src/data-structures/rr-queue.c: the round-robin queue with its three linked lists.
use cmsc125_lab.Base.{ℕ, suc, ◌-◌, Option, none, some, List, [], ◌∷◌, ◌++◌}

pub record RrQueue : Type 0 where
  pub active : List ℕ
  pub round : List ℕ
  pub pending : List ℕ
  pub size : ℕ

unfoldable pub construct_rr_process_queue : RrQueue
construct_rr_process_queue = record { active = []; round = []; pending = []; size = 0 }

unfoldable pub rr_enqueue : RrQueue → ℕ → RrQueue
rr_enqueue q i = record q { pending = q.pending ++ i ∷ []; size = suc q.size }

unfoldable pub rr_requeue : RrQueue → ℕ → RrQueue
rr_requeue q i = record q { round = q.round ++ i ∷ []; size = suc q.size }

unfoldable pub rr_append_pending_to_active : RrQueue → RrQueue
rr_append_pending_to_active q = record q { active = q.active ++ q.pending; pending = [] }

-- The start of `rr_dequeue`, for the active entries: with none, a new round begins.
unfoldable pub rr_new_round : List ℕ → RrQueue → RrQueue
unfolding rr_append_pending_to_active
rr_new_round [] q = rr_append_pending_to_active (record q { active = q.round; round = [] })
rr_new_round (_ ∷ _) q = q

unfoldable pub rr_take_active : List ℕ → RrQueue → Option (ℕ × RrQueue)
rr_take_active [] q = none
rr_take_active (i ∷ rest) q = some (i, record q { active = rest; size = q.size - 1 })

-- When every list is empty the source returns NULL, with the queue as it was.
unfoldable pub rr_dequeue : RrQueue → Option (ℕ × RrQueue)
unfolding rr_new_round rr_take_active
rr_dequeue q = let q' = rr_new_round q.active q in rr_take_active q'.active q'
