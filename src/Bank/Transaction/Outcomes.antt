-- ===== src/Bank/Transaction/Outcomes.antt =====
-- What the operations of a transaction leave behind, one by one and together.
use cmsc125_lab.Bank.Accounts.{max_accounts, Bank, calculate_total_balance}
use cmsc125_lab.Bank.Accounts.Conservation.{
  deposit-total, KeepsTotal, withdraw-total, transfer-total,
}
use cmsc125_lab.Bank.BufferPool.{BufferPool}
use cmsc125_lab.Bank.BufferPool.Promises.{PoolOk}
use cmsc125_lab.Bank.Transaction.{
  OpType, op_deposit, op_withdraw, op_transfer, op_balance, Operation, tx_committed, tx_aborted,
  Transaction, Globals, wait_until_tick, apply_operation, Outcome, blocked, aborted, runs,
  abort_transaction, finish_operation, after_apply, after_load, execute_operation,
  commit_transaction, execute_ops,
}
use cmsc125_lab.Bank.Transaction.Operands.{
  operands, Lends, load_operands-Lends, release_operands-Returned, release_refused-Returned,
}
use cmsc125_lab.Bank.Transaction.Reservations.{Reserves, Reserves-none}
use cmsc125_lab.Base.{
  length, ℕ, suc, ◌+◌, ◌≤◌, ◌<◌, ◌≡◌, refl, ◌∙◌, subst, Option, none, some, List, [], ◌∷◌, arith,
}

-- The accounts of an operation are ones of the bank.
unfoldable pub InBank : Operation → Type 0
InBank op = (op.account < max_accounts) × (op.target_account < max_accounts)

pub apply_operation-KeepsTotal :
    (k : OpType) (op : Operation) (b : Bank) → InBank op → KeepsTotal b (apply_operation k op b)
unfolding apply_operation InBank
apply_operation-KeepsTotal op_deposit op b i = deposit-total op.account op.amount_centavos b i.0
apply_operation-KeepsTotal op_withdraw op b i = withdraw-total op.account op.amount_centavos b i.0
apply_operation-KeepsTotal op_transfer op b i =
    transfer-total op.account op.target_account op.amount_centavos b i.0 i.1
apply_operation-KeepsTotal op_balance op b i = refl

-- From the globals `g`, a transaction has kept all money, has given back its slots, and has taken at
-- least `n` ticks.
pub record Kept (n : ℕ) (g g' : Globals) : Type 0 where
  pub same_total : calculate_total_balance g'.bank ≡ calculate_total_balance g.bank
  pub returned : Reserves [] g.shared_pool g'.shared_pool
  pub ticks_passed : g.global_tick + n ≤ g'.global_tick

-- One operation: it never waits for a slot; an abort is recorded with the tick at which it happens.
AfterOne : Globals → Transaction → Outcome → Type 0
AfterOne g tx blocked = ⊥
AfterOne g tx (aborted g' tx') =
    Kept 0 g g'
    × (tx'.status ≡ tx_aborted)
    × (tx'.actual_end ≡ g'.global_tick)
    × (tx'.actual_start ≡ tx.actual_start)
AfterOne g tx (runs g' tx') = Kept 1 g g' × (tx'.actual_start ≡ tx.actual_start)

applied-AfterOne :
    (op : Operation) (loaded : BufferPool) (d e : ℕ) (tx : Transaction) (g : Globals)
    (o : Option Bank)
    → Reserves (operands op.op_type op) g.shared_pool loaded
    → KeepsTotal g.bank o
    → AfterOne g tx (after_apply op loaded (g.global_tick + d) (g.global_tick + d + e) tx g o)
unfolding AfterOne abort_transaction finish_operation wait_until_tick
applied-AfterOne op loaded d e tx g none r h = (
  record {
    same_total = refl;
    returned = release_refused-Returned op.op_type op g.shared_pool loaded r;
    ticks_passed = omega arith;
  },
  refl,
  refl,
  refl,
)
applied-AfterOne op loaded d e tx g (some b) r h = (
  record {
    same_total = h;
    returned = release_operands-Returned op.op_type op g.shared_pool loaded r;
    ticks_passed = ground arith;
  },
  refl,
)

loaded-AfterOne :
    (op : Operation) (d e : ℕ) (tx : Transaction) (g : Globals) (o : Option BufferPool)
    → InBank op
    → Lends op.op_type op g.shared_pool o
    → AfterOne g tx (after_load op (g.global_tick + d) (g.global_tick + d + e) tx g o)
unfolding Lends
loaded-AfterOne op d e tx g none i l = absurd l
loaded-AfterOne op d e tx g (some loaded) i l =
    applied-AfterOne op loaded d e tx g _ l (apply_operation-KeepsTotal op.op_type op g.bank i)

execute_operation-AfterOne :
    (d e : ℕ) (op : Operation) (tx : Transaction) (g : Globals)
    → InBank op
    → PoolOk g.shared_pool
    → 1 < g.shared_pool.empty_slots
    → AfterOne g tx (execute_operation d e op tx g)
unfolding execute_operation
execute_operation-AfterOne d e op tx g i ok room =
    loaded-AfterOne op d e tx g _ i (load_operands-Lends op.op_type op g.shared_pool ok room)

-- The whole loop from the operations left: it ends; it commits only when every operation has run,
-- each for a tick at least; an abort leaves money and slots as complete as a commit does.
unfoldable pub Ended : ℕ → Globals → Transaction → Outcome → Type 0
Ended n g tx blocked = ⊥
Ended n g tx (aborted g' tx') =
    Kept 0 g g'
    × (tx'.status ≡ tx_aborted)
    × (tx'.actual_end ≡ g'.global_tick)
    × (tx'.actual_start ≡ tx.actual_start)
Ended n g tx (runs g' tx') =
    Kept n g g'
    × (tx'.status ≡ tx_committed)
    × (tx'.actual_end ≡ g'.global_tick)
    × (tx'.actual_start ≡ tx.actual_start)

unfoldable pub AllInBank : List Operation → Type 0
AllInBank [] = Unit {0}
AllInBank (op ∷ rest) = InBank op × AllInBank rest

Kept-then : (m n : ℕ) (g h k : Globals) → Kept m g h → Kept n h k → Kept (m + n) g k
Kept-then m n g h k a b = record {
  same_total = b.same_total ∙ a.same_total;
  returned = record {
    in_order = b.returned.in_order;
    taken = let s = a.returned.taken in let t = b.returned.taken in omega arith;
    one_each = λ j. let s = a.returned.one_each j in let t = b.returned.one_each j in omega arith;
  };
  ticks_passed = let s = a.ticks_passed in let t = b.ticks_passed in omega arith;
}

Kept-less : (m n : ℕ) (g h : Globals) → m ≤ n → Kept n g h → Kept m g h
Kept-less m n g h le a = record {
  same_total = a.same_total;
  returned = a.returned;
  ticks_passed = let t = a.ticks_passed in omega arith;
}

Ended-later :
    (n : ℕ) (g h : Globals) (tx ty : Transaction) (o : Outcome)
    → Kept 1 g h
    → (ty.actual_start ≡ tx.actual_start)
    → Ended n h ty o
    → Ended (1 + n) g tx o
unfolding Ended
Ended-later n g h tx ty blocked a s e = e
Ended-later n g h tx ty (aborted k tz) a s (b, st, en, same) =
    (Kept-less 0 1 g k (omega arith) (Kept-then 1 0 g h k a b), st, en, same ∙ s)
Ended-later n g h tx ty (runs k tz) a s (b, st, en, same) =
    (Kept-then 1 n g h k a b, st, en, same ∙ s)

commit-Ended :
    (d : ℕ) (tx : Transaction) (g : Globals)
    → PoolOk g.shared_pool
    → Ended 0 g tx (commit_transaction d tx g)
unfolding Ended commit_transaction
commit-Ended d tx g ok = (
  record {
    same_total = refl;
    returned = Reserves-none g.shared_pool ok;
    ticks_passed = omega arith;
  },
  refl,
  refl,
  refl,
)

-- The step of the induction, whose hypothesis is `ih`.
continue-Ended :
    (delay : ℕ → ℕ × ℕ) (k : ℕ) (rest : List Operation) (tx : Transaction) (g : Globals)
    (o : Outcome)
    → ((ty : Transaction) (h : Globals)
        → PoolOk h.shared_pool
        → 1 < h.shared_pool.empty_slots
        → Ended (length rest) h ty (execute_ops delay k rest ty h))
    → 1 < g.shared_pool.empty_slots
    → AfterOne g tx o
    → Ended (1 + length rest) g tx (elim o [
      | blocked ↦ blocked
      | aborted g' tx' ↦ aborted g' tx'
      | runs g' tx' ↦ execute_ops delay k rest tx' g'
    ])
unfolding AfterOne Ended
continue-Ended delay k rest tx g blocked ih room a = a
continue-Ended delay k rest tx g (aborted h ty) ih room a = a
continue-Ended delay k rest tx g (runs h ty) ih room (kept, s) =
    Ended-later (length rest) g h tx ty _ kept s
      (ih ty h kept.returned.in_order (let t = kept.returned.taken in omega arith))

pub execute_ops-Ended :
    (delay : ℕ → ℕ × ℕ) (k : ℕ) (ops : List Operation) (tx : Transaction) (g : Globals)
    → AllInBank ops
    → PoolOk g.shared_pool
    → 1 < g.shared_pool.empty_slots
    → Ended (length ops) g tx (execute_ops delay k ops tx g)
unfolding execute_ops AllInBank
execute_ops-Ended delay k [] tx g i ok room = commit-Ended (delay k).0 tx g ok
execute_ops-Ended delay k (op ∷ rest) tx g i ok room =
    subst (λ n. Ended n g tx (execute_ops delay k (op ∷ rest) tx g)) (omega arith)
      (continue-Ended delay (suc k) rest tx g _
        (λ ty h. execute_ops-Ended delay (suc k) rest ty h i.1) room
        (execute_operation-AfterOne (delay k).0 (delay k).1 op tx g i.0 ok room))
