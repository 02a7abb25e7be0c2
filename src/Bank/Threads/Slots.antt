-- ===== src/Bank/Threads/Slots.antt =====
-- The slots that the threads of lab_3/src/transaction.c hold at each place, and the sections that each
-- has left at most.
use cmsc125_lab.Bank.BufferPool.{BufferPool}
use cmsc125_lab.Bank.Threads.{
  Place, starting, at_beginning, at_loop, at_first, at_second, at_bank, at_reserve, at_clock,
  until_tick, at_unload, at_last_unload, at_refused, at_last_refused, at_abort, ended, Thread,
  first_operand, after_first, last_operand, after_unload, after_refused, load_slot, locked_part,
  call_bank, move_at,
}
use cmsc125_lab.Bank.Threads.Holdings.{
  held_at, sections_left, Moved, MovedOr, load_slot-MovedOr, unload_slot-MovedOr, call_bank-MovedOr,
}
use cmsc125_lab.Bank.Transaction.{OpType, op_deposit, op_withdraw, op_transfer, op_balance, Globals}
use cmsc125_lab.Bank.Transaction.Operands.{operands}
use cmsc125_lab.Bank.Transaction.Reservations.{Reserves}
use cmsc125_lab.Base.{
  if◌then◌else◌, ℕ, refl, Bool, true, false, none, some, List, [], ◌∷◌, ◌++◌, arith,
}

guarded-MovedOr :
    (c : Bool) (others : List ℕ) (q : BufferPool) (p : Place) (t t' : Thread) (g' : Globals)
    → Moved others q p t t' g'
    → MovedOr others q p t (if c then none else some (t', g'))
unfolding MovedOr
guarded-MovedOr true others q p t t' g' m = tt
guarded-MovedOr false others q p t t' g' m = m

swapped-Reserves :
    (i j : ℕ) (is : List ℕ) (q p : BufferPool)
    → Reserves (i ∷ j ∷ is) q p
    → Reserves (j ∷ i ∷ is) q p
swapped-Reserves i j is q p r = record {
  in_order = r.in_order;
  taken = r.taken;
  one_each = λ k. let e = r.one_each k in omega arith;
}

-- Whichever section a thread runs, the pool lends exactly the slots held, and the thread comes
-- closer to its end.
pub move_at-MovedOr :
    (others : List ℕ) (q : BufferPool) (p : Place) (t : Thread) (g : Globals)
    → Reserves (held_at p ++ others) q g.shared_pool
    → MovedOr others q p t (move_at p t g)
unfolding move_at call_bank held_at operands sections_left MovedOr first_operand after_first
    last_operand after_unload after_refused
move_at-MovedOr others q starting t g r =
    guarded-MovedOr _ others q starting t _ g (record { reserves = r; fewer = omega arith })
move_at-MovedOr others q at_beginning t g r = record { reserves = r; fewer = omega arith }
move_at-MovedOr others q (at_loop []) t g r = record { reserves = r; fewer = omega arith }
move_at-MovedOr others q (at_loop (op ∷ rest)) t g r = record { reserves = r; fewer = omega arith }
move_at-MovedOr others q (at_first b op rest) t g r = by_case op.op_type
  where
    by_case :
        (k : OpType)
        → MovedOr others q
            (at_first b op rest)
            t
            (load_slot (first_operand k op) (after_first k b op rest) t g)
    by_case op_deposit = load_slot-MovedOr _ others others q _ _ t g r refl (omega arith)
    by_case op_withdraw = load_slot-MovedOr _ others others q _ _ t g r refl (omega arith)
    by_case op_balance = load_slot-MovedOr _ others others q _ _ t g r refl (omega arith)
    by_case op_transfer = load_slot-MovedOr _ others others q _ _ t g r refl (omega arith)
move_at-MovedOr others q (at_second b op rest) t g r =
    load_slot-MovedOr _ others _ q _ _ t g r refl (omega arith)
move_at-MovedOr others q (at_bank k b op rest) t g r =
    call_bank-MovedOr k b op rest others q t g (locked_part k op g.bank) r
move_at-MovedOr others q (at_reserve k b op rest) t g r = record {
  reserves = r;
  fewer = omega arith;
}
move_at-MovedOr others q (at_clock k b op rest) t g r = record { reserves = r; fewer = omega arith }
move_at-MovedOr others q (until_tick n k op rest) t g r =
    guarded-MovedOr _ others q (until_tick n k op rest) t _ g
      (record { reserves = r; fewer = omega arith })
move_at-MovedOr others q (at_unload op_deposit op rest) t g r =
    unload_slot-MovedOr _ others others q _ _ t g r refl (omega arith)
move_at-MovedOr others q (at_unload op_withdraw op rest) t g r =
    unload_slot-MovedOr _ others others q _ _ t g r refl (omega arith)
move_at-MovedOr others q (at_unload op_balance op rest) t g r =
    unload_slot-MovedOr _ others others q _ _ t g r refl (omega arith)
move_at-MovedOr others q (at_unload op_transfer op rest) t g r =
    unload_slot-MovedOr _ others _ q _ _ t g r refl (omega arith)
move_at-MovedOr others q (at_last_unload op rest) t g r =
    unload_slot-MovedOr _ others others q _ _ t g r refl (omega arith)
move_at-MovedOr others q (at_refused op_deposit op) t g r =
    unload_slot-MovedOr _ others others q _ _ t g r refl (omega arith)
move_at-MovedOr others q (at_refused op_withdraw op) t g r =
    unload_slot-MovedOr _ others others q _ _ t g r refl (omega arith)
move_at-MovedOr others q (at_refused op_balance op) t g r =
    unload_slot-MovedOr _ others others q _ _ t g r refl (omega arith)
move_at-MovedOr others q (at_refused op_transfer op) t g r =
    unload_slot-MovedOr _ others _ q _ _ t g (swapped-Reserves _ _ others q g.shared_pool r) refl
      (omega arith)
move_at-MovedOr others q (at_last_refused op) t g r =
    unload_slot-MovedOr _ others others q _ _ t g r refl (omega arith)
move_at-MovedOr others q at_abort t g r = record { reserves = r; fewer = omega arith }
move_at-MovedOr others q ended t g r = tt
