-- ===== src/Sched/Chain.antt =====
-- fcfs-queue.c, sjf-queue.c and stcf-queue.c of lab_2/schedsim-2/src/data-structures. Each is a
-- linked list of processes with the `size` of its AbstractProcessQueue; here the list of the
-- processes from `head` on. The tail pointer of the FCFS queue is the end of that list.
pub mod Ordered
use cmsc125_lab.Base.{if◌then◌else◌, ℤ, leb_ℤ, ℕ, suc, ◌-◌, Option, none, some, List, [], ◌∷◌, ◌++◌}
use cmsc125_lab.Sched.Process.{Process, Store}

pub record Chain : Type 0 where
  pub items : List ℕ
  pub size : ℕ

unfoldable pub construct_chain : Chain
construct_chain = record { items = []; size = 0 }

unfoldable pub fcfs_enqueue : Chain → ℕ → Chain
fcfs_enqueue q i = record { items = q.items ++ i ∷ []; size = suc q.size }

unfoldable pub chain_take : List ℕ → ℕ → Option (ℕ × Chain)
chain_take [] size = none
chain_take (i ∷ rest) size = some (i, record { items = rest; size = size - 1 })

-- `fcfs_dequeue`, `sjf_dequeue` and `stcf_dequeue` take the head.
unfoldable pub chain_dequeue : Chain → Option (ℕ × Chain)
unfolding chain_take
chain_dequeue q = chain_take q.items q.size

-- The walk of `sjf_enqueue` and `stcf_enqueue`: past every element whose key is not larger.
unfoldable pub insert_by : (Process → ℤ) → Store → ℕ → List ℕ → List ℕ
insert_by key ps i [] = i ∷ []
insert_by key ps i (curr ∷ rest) =
    if leb_ℤ (key (ps curr)) (key (ps i)) then curr ∷ insert_by key ps i rest else i ∷ curr ∷ rest

abbrev pub burst_key : Process → ℤ
burst_key p = p.burst_time

abbrev pub remaining_key : Process → ℤ
remaining_key p = p.remaining_time

unfoldable pub sjf_enqueue : Store → Chain → ℕ → Chain
sjf_enqueue ps q i = record { items = insert_by burst_key ps i q.items; size = suc q.size }

unfoldable pub stcf_enqueue : Store → Chain → ℕ → Chain
stcf_enqueue ps q i = record { items = insert_by remaining_key ps i q.items; size = suc q.size }
