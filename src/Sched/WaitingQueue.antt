-- ===== src/Sched/WaitingQueue.antt =====
-- includes/data-structures/process-queue-adt.h: the function pointers of AbstractProcessQueue,
-- as a data type with a constructor for each queue that fills them in.
pub mod Contents
pub mod Contract
pub mod Serving
use cmsc125_lab.Base.{ℕ, Option, none, some}
use cmsc125_lab.Sched.Chain.{Chain, fcfs_enqueue, chain_dequeue, sjf_enqueue, stcf_enqueue}
use cmsc125_lab.Sched.MlfqQueue.{MlfqQueue, mlfq_enqueue, mlfq_dequeue}
use cmsc125_lab.Sched.Process.{Store}
use cmsc125_lab.Sched.RrQueue.{RrQueue, rr_enqueue, rr_dequeue}

pub data WaitingQueue : Type 0 where
  fcfs_queue : Chain → WaitingQueue
  sjf_queue : Chain → WaitingQueue
  stcf_queue : Chain → WaitingQueue
  rr_queue : RrQueue → WaitingQueue
  mlfq_queue : MlfqQueue → WaitingQueue

-- `waiting->size`
abbrev pub queue_size : WaitingQueue → ℕ
queue_size (fcfs_queue q) = q.size
queue_size (sjf_queue q) = q.size
queue_size (stcf_queue q) = q.size
queue_size (rr_queue q) = q.size
queue_size (mlfq_queue q) = q.size

-- `waiting->enqueue`. Only the MLFQ queue writes to the process.
unfoldable pub enqueue : Store → WaitingQueue → ℕ → Store × WaitingQueue
enqueue ps (fcfs_queue q) i = (ps, fcfs_queue (fcfs_enqueue q i))
enqueue ps (sjf_queue q) i = (ps, sjf_queue (sjf_enqueue ps q i))
enqueue ps (stcf_queue q) i = (ps, stcf_queue (stcf_enqueue ps q i))
enqueue ps (rr_queue q) i = (ps, rr_queue (rr_enqueue q i))
enqueue ps (mlfq_queue q) i = let (ps', q') = mlfq_enqueue ps q i in (ps', mlfq_queue q')

abbrev pub rewrap {ℓ} :
    {Q : Type ℓ} → (Q → WaitingQueue) → Option (ℕ × Q) → Option (ℕ × WaitingQueue)
rewrap f none = none
rewrap f (some (i, q)) = some (i, f q)

-- `waiting->dequeue`
unfoldable pub dequeue : WaitingQueue → Option (ℕ × WaitingQueue)
dequeue (fcfs_queue q) = rewrap fcfs_queue (chain_dequeue q)
dequeue (sjf_queue q) = rewrap sjf_queue (chain_dequeue q)
dequeue (stcf_queue q) = rewrap stcf_queue (chain_dequeue q)
dequeue (rr_queue q) = rewrap rr_queue (rr_dequeue q)
dequeue (mlfq_queue q) = rewrap mlfq_queue (mlfq_dequeue q)
