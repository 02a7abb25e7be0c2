-- ===== src/Bank/Transaction.antt =====
-- lab_3/src/transaction.c with the types of lab_3/include/bankdb.h, and `wait_until_tick` of
-- lab_3/src/timer.c. One transaction runs; the timer thread lets `delay` ticks pass before each
-- of its readings of the clock. `ops` holds the operations of the array up to `num_ops`.
pub mod Reservations
pub mod Operands
pub mod Outcomes
pub mod Execution
use cmsc125_lab.Bank.Accounts.{Bank, deposit, withdraw, transfer, first_id, second_id}
use cmsc125_lab.Bank.BufferPool.{BufferPool, load_account, unload_account}
use cmsc125_lab.Base.{
  if◌then◌else◌, ℤ, pos, pos_part, ltb_ℤ, ℕ, suc, ◌+◌, ◌-◌, Option, none, some, List, [], ◌∷◌,
}

pub data OpType : Type 0 where
  op_deposit op_withdraw op_transfer op_balance : OpType

pub record Operation : Type 0 where
  pub op_type : OpType
  pub account : ℕ
  pub amount_centavos : ℤ
  pub target_account : ℕ

pub data TxStatus : Type 0 where
  tx_running tx_committed tx_aborted : TxStatus

pub record Transaction : Type 0 where
  pub tx_id : ℤ
  pub ops : List Operation
  pub start_tick : ℤ
  pub actual_start : ℕ
  pub actual_end : ℕ
  pub wait_ticks : ℕ
  pub status : TxStatus

-- The globals `bank`, `shared_pool` and `global_tick`.
pub record Globals : Type 0 where
  pub bank : Bank
  pub shared_pool : BufferPool
  pub global_tick : ℕ

-- The clock when the loop of `wait_until_tick` has ended: it waits only while the tick is too low.
unfoldable pub wait_until_tick : ℤ → ℕ → ℕ
wait_until_tick target now = if ltb_ℤ (pos now) target then pos_part target else now

-- The switches on the type of the operation. First its `load_account` calls; none where one of them
-- blocks.
unfoldable pub load_operands : OpType → Operation → BufferPool → Option BufferPool
load_operands op_transfer op pool =
    elim (load_account (first_id op.account op.target_account) pool) [
      | none ↦ none
      | some loaded ↦ load_account (second_id op.account op.target_account) loaded
    ]
load_operands _ op pool = load_account op.account pool

-- The call of the bank; none where it returns false.
unfoldable pub apply_operation : OpType → Operation → Bank → Option Bank
apply_operation op_deposit op b = some (deposit op.account op.amount_centavos b)
apply_operation op_withdraw op b = withdraw op.account op.amount_centavos b
apply_operation op_transfer op b = transfer op.account op.target_account op.amount_centavos b
apply_operation op_balance op b = some b

-- The `unload_account` calls after an operation that succeeded: the second account first.
unfoldable pub release_operands : OpType → Operation → BufferPool → BufferPool
release_operands op_transfer op pool =
    unload_account (first_id op.account op.target_account)
      (unload_account (second_id op.account op.target_account) pool)
release_operands _ op pool = unload_account op.account pool

-- The `unload_account` calls before an abort, which only two types of operation reach: the first
-- account first.
unfoldable pub release_refused : OpType → Operation → BufferPool → BufferPool
release_refused op_transfer op pool =
    unload_account (second_id op.account op.target_account)
      (unload_account (first_id op.account op.target_account) pool)
release_refused _ op pool = unload_account op.account pool

-- `blocked`: the thread waits for a slot of the pool. `aborted`: it has returned early.
pub data Outcome : Type 0 where
  blocked : Outcome
  aborted : Globals → Transaction → Outcome
  runs : Globals → Transaction → Outcome

-- The early return: the slots are given back, the effects of earlier operations stay.
unfoldable pub abort_transaction : Operation → BufferPool → ℕ → Transaction → Globals → Outcome
unfolding release_refused
abort_transaction op loaded now tx g =
    aborted (record g { shared_pool = release_refused op.op_type op loaded; global_tick = now })
      (record tx { status = tx_aborted; actual_end = now })

-- The end of the loop's body: it waits for the next tick, then unloads.
unfoldable pub finish_operation :
    Operation → BufferPool → Bank → ℕ → ℕ → Transaction → Globals → Outcome
unfolding release_operands wait_until_tick
finish_operation op loaded b tick_before now tx g =
    runs
      (record {
        bank = b;
        shared_pool = release_operands op.op_type op loaded;
        global_tick = wait_until_tick (pos (suc now)) now;
      })
      (record tx { wait_ticks = tx.wait_ticks + (now - tick_before) })

abbrev pub after_apply :
    Operation → BufferPool → ℕ → ℕ → Transaction → Globals → Option Bank → Outcome
after_apply op loaded tick_before now tx g none = abort_transaction op loaded now tx g
after_apply op loaded tick_before now tx g (some b) =
    finish_operation op loaded b tick_before now tx g

abbrev pub after_load : Operation → ℕ → ℕ → Transaction → Globals → Option BufferPool → Outcome
after_load op tick_before now tx g none = blocked
after_load op tick_before now tx g (some loaded) =
    after_apply op loaded tick_before now tx g (apply_operation op.op_type op g.bank)

-- One round of the loop, `d` ticks before the first and `e` between the first and second reading
-- of the clock.
unfoldable pub execute_operation : ℕ → ℕ → Operation → Transaction → Globals → Outcome
unfolding load_operands apply_operation
execute_operation d e op tx g =
    after_load op (g.global_tick + d) (g.global_tick + d + e) tx g
      (load_operands op.op_type op g.shared_pool)

-- After the loop.
unfoldable pub commit_transaction : ℕ → Transaction → Globals → Outcome
commit_transaction d tx g =
    let now = g.global_tick + d in
    runs (record g { global_tick = now }) (record tx { status = tx_committed; actual_end = now })

unfoldable pub execute_ops : (ℕ → ℕ × ℕ) → ℕ → List Operation → Transaction → Globals → Outcome
unfolding execute_operation commit_transaction
execute_ops delay k [] tx g = commit_transaction (delay k).0 tx g
execute_ops delay k (op ∷ rest) tx g = elim (execute_operation (delay k).0 (delay k).1 op tx g) [
  | blocked ↦ blocked
  | aborted g' tx' ↦ aborted g' tx'
  | runs g' tx' ↦ execute_ops delay (suc k) rest tx' g'
]

unfoldable pub execute_transaction : (ℕ → ℕ × ℕ) → Transaction → Globals → Outcome
unfolding execute_ops wait_until_tick
execute_transaction delay tx g =
    let now = wait_until_tick tx.start_tick g.global_tick + (delay 0).0 in
    execute_ops delay 1 tx.ops (record tx { actual_start = now; status = tx_running })
      (record g { global_tick = now })
