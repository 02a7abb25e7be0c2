-- ===== src/Bank/Transaction/Execution.antt =====
-- What a whole transaction leaves behind, whether it commits or aborts.
use cmsc125_lab.Bank.BufferPool.Promises.{PoolOk}
use cmsc125_lab.Bank.Transaction.{
  tx_running, tx_committed, tx_aborted, Transaction, Globals, wait_until_tick, Outcome, blocked,
  aborted, runs, execute_transaction,
}
use cmsc125_lab.Bank.Transaction.Outcomes.{Kept, Ended, AllInBank, execute_ops-Ended}
use cmsc125_lab.Base.{length, ℤ, pos, ◌≤ℤ◌, ℕ, ◌+◌, ◌≤◌, ◌<◌, ◌≡◌, arith}

-- What `execute_transaction` promises.
pub Executed : Transaction → Globals → Outcome → Type 0
Executed tx g blocked = ⊥
Executed tx g (aborted g' tx') =
    Kept 0 g g'
    × (tx'.status ≡ tx_aborted)
    × (tx.start_tick ≤ℤ pos tx'.actual_start)
    × (tx'.actual_start ≤ tx'.actual_end)
Executed tx g (runs g' tx') =
    Kept (length tx.ops) g g'
    × (tx'.status ≡ tx_committed)
    × (tx.start_tick ≤ℤ pos tx'.actual_start)
    × (tx'.actual_start + length tx.ops ≤ tx'.actual_end)

Kept-sooner :
    (n now : ℕ) (g h : Globals)
    → g.global_tick ≤ now
    → Kept n (record g { global_tick = now }) h
    → Kept n g h
Kept-sooner n now g h le a = record {
  same_total = a.same_total;
  returned = a.returned;
  ticks_passed = let t = a.ticks_passed in omega arith;
}

Ended-Executed :
    (now : ℕ) (tx : Transaction) (g : Globals) (o : Outcome)
    → g.global_tick ≤ now
    → tx.start_tick ≤ℤ pos now
    → Ended
        (length tx.ops)
        (record g { global_tick = now })
        (record tx { actual_start = now; status = tx_running })
        o
    → Executed tx g o
unfolding Ended Executed
Ended-Executed now tx g blocked le due e = e
Ended-Executed now tx g (aborted h ty) le due (kept, st, en, same) = (
  Kept-sooner 0 now g h le kept,
  st,
  rw same due,
  rw same (rw en (let t = kept.ticks_passed in omega arith)),
)
Ended-Executed now tx g (runs h ty) le due (kept, st, en, same) = (
  Kept-sooner (length tx.ops) now g h le kept,
  st,
  rw same due,
  rw same (rw en kept.ticks_passed),
)

wait-due : (target : ℤ) (now d : ℕ) → target ≤ℤ pos (wait_until_tick target now + d)
unfolding wait_until_tick
wait-due target now d = ground arith

wait-later : (target : ℤ) (now d : ℕ) → now ≤ wait_until_tick target now + d
unfolding wait_until_tick
wait-later target now d = ground arith

-- A transaction that runs alone on accounts of the bank, with two free slots in a pool in order, is
-- never blocked: it commits or aborts. Either way the total of all balances and the reserve is the
-- same, every slot is given back, and it does not start before its tick. If it commits, each of its
-- operations has taken at least one tick.
pub execute_transaction-Executed :
    (delay : ℕ → ℕ × ℕ) (tx : Transaction) (g : Globals)
    → AllInBank tx.ops
    → PoolOk g.shared_pool
    → 1 < g.shared_pool.empty_slots
    → Executed tx g (execute_transaction delay tx g)
unfolding execute_transaction
execute_transaction-Executed delay tx g i ok room =
    let now = wait_until_tick tx.start_tick g.global_tick + (delay 0).0 in
    Ended-Executed now tx g _ (wait-later tx.start_tick g.global_tick (delay 0).0)
      (wait-due tx.start_tick g.global_tick (delay 0).0)
      (execute_ops-Ended delay 1 tx.ops _ _ i ok room)
