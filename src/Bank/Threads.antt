-- ===== src/Bank/Threads.antt =====
-- lab_3/src/transaction.c once more, for several threads: `main` starts one `execute_transaction` for
-- each transaction, and they share the bank, the buffer pool and the clock. A place is where in
-- `execute_transaction` a thread stands; inside the switch it names the case. One turn is one thread's
-- next critical section, or a tick of `timer_thread` (lab_3/src/timer.c). `deposit` and `withdraw` are
-- two sections each: the balance under the lock of the account, and then the reserve.
pub mod Holdings
pub mod Slots
pub mod Together
pub mod Schedules
pub mod Enabled
pub mod Progress
pub mod Waiting
pub mod Approach
pub mod Deadlock
pub mod Dues
pub mod Sections
pub mod Money
use cmsc125_lab.Bank.Accounts.{
  Bank, add_to_balance, add_to_reserve, take_from_reserve, withdraw_locked, transfer, first_id,
  second_id,
}
use cmsc125_lab.Bank.BufferPool.{load_account, unload_account}
use cmsc125_lab.Bank.Transaction.{
  OpType, op_deposit, op_withdraw, op_transfer, op_balance, Operation, tx_running, tx_committed,
  tx_aborted, Transaction, Globals,
}
use cmsc125_lab.Base.{
  ltb, if◌then◌else◌, pos, ltb_ℤ, ℕ, zero, suc, ◌+◌, ◌-◌, Option, none, some, List, [], ◌∷◌, map,
}

pub data Place : Type 0 where
  starting at_beginning : Place
  at_loop : List Operation → Place
  at_first : ℕ → Operation → List Operation → Place
  at_second : ℕ → Operation → List Operation → Place
  at_bank : OpType → ℕ → Operation → List Operation → Place
  at_reserve : OpType → ℕ → Operation → List Operation → Place
  at_clock : OpType → ℕ → Operation → List Operation → Place
  until_tick : ℕ → OpType → Operation → List Operation → Place
  at_unload : OpType → Operation → List Operation → Place
  at_last_unload : Operation → List Operation → Place
  at_refused : OpType → Operation → Place
  at_last_refused : Operation → Place
  at_abort : Place
  ended : Place

pub record Thread : Type 0 where
  pub tx : Transaction
  pub place : Place

-- `&tsx[i]` as `pthread_create` hands it over.
unfoldable pub create_thread : Transaction → Thread
create_thread t = record { tx = t; place = starting }

-- The account of the first `load_account` of a case, and the place after it.
unfoldable pub first_operand : OpType → Operation → ℕ
first_operand op_transfer op = first_id op.account op.target_account
first_operand _ op = op.account

unfoldable pub after_first : OpType → ℕ → Operation → List Operation → Place
after_first op_transfer b op rest = at_second b op rest
after_first k b op rest = at_bank k b op rest

-- The account of the first `unload_account` after the operation, and the place after it.
unfoldable pub last_operand : OpType → Operation → ℕ
last_operand op_transfer op = second_id op.account op.target_account
last_operand _ op = op.account

unfoldable pub after_unload : OpType → Operation → List Operation → Place
after_unload op_transfer op rest = at_last_unload op rest
after_unload _ op rest = at_loop rest

-- The place after the first `unload_account` before an abort.
unfoldable pub after_refused : OpType → Operation → Place
after_refused op_transfer op = at_last_refused op
after_refused _ op = at_abort

-- `load_account`, after which the thread stands at `next`; none while it waits for a slot.
unfoldable pub load_slot : ℕ → Place → Thread → Globals → Option (Thread × Globals)
load_slot i next t g = elim (load_account i g.shared_pool) [
  | none ↦ none
  | some p ↦ some (record t { place = next }, record g { shared_pool = p })
]

unfoldable pub unload_slot : ℕ → Place → Thread → Globals → Option (Thread × Globals)
unload_slot i next t g =
    some (record t { place = next }, record g { shared_pool = unload_account i g.shared_pool })

-- What the call of the bank does under the locks of the accounts; none where it returns false.
unfoldable pub locked_part : OpType → Operation → Bank → Option Bank
unfolding add_to_balance withdraw_locked transfer
locked_part op_deposit op b = some (add_to_balance op.account op.amount_centavos b)
locked_part op_withdraw op b = withdraw_locked op.account op.amount_centavos b
locked_part op_transfer op b = transfer op.account op.target_account op.amount_centavos b
locked_part op_balance op b = some b

-- The atomic change of the reserve, after the lock has been released.
unfoldable pub reserve_part : OpType → Operation → Bank → Bank
unfolding add_to_reserve take_from_reserve
reserve_part op_deposit op b = take_from_reserve op.amount_centavos b
reserve_part op_withdraw op b = add_to_reserve op.amount_centavos b
reserve_part _ op b = b

-- The place after the locks: only a deposit and a withdrawal have a share of the reserve to settle.
unfoldable pub after_locked : OpType → ℕ → Operation → List Operation → Place
after_locked op_deposit b op rest = at_reserve op_deposit b op rest
after_locked op_withdraw b op rest = at_reserve op_withdraw b op rest
after_locked k b op rest = at_clock k b op rest

-- The call of the bank, as far as it holds locks: to the abort when it returns false.
unfoldable pub call_bank :
    OpType → ℕ → Operation → List Operation → Thread → Globals → Option (Thread × Globals)
unfolding locked_part after_locked
call_bank k b op rest t g = elim (locked_part k op g.bank) [
  | none ↦ some (record t { place = at_refused k op }, g)
  | some bank' ↦ some (record t { place = after_locked k b op rest }, record g { bank = bank' })
]

-- The next section of a thread; none while it has to wait, and once it has returned.
unfoldable pub move_at : Place → Thread → Globals → Option (Thread × Globals)
unfolding first_operand after_first last_operand after_unload after_refused load_slot unload_slot
    call_bank reserve_part
move_at starting t g =
    if ltb_ℤ (pos g.global_tick) t.tx.start_tick
    then none
    else some (record t { place = at_beginning }, g)
move_at at_beginning t g = some (
  record {
    tx = record (t.tx) { actual_start = g.global_tick; status = tx_running };
    place = at_loop t.tx.ops;
  },
  g,
)
move_at (at_loop []) t g = some (
  record {
    tx = record (t.tx) { actual_end = g.global_tick; status = tx_committed };
    place = ended;
  },
  g,
)
move_at (at_loop (op ∷ rest)) t g = some (record t { place = at_first g.global_tick op rest }, g)
move_at (at_first b op rest) t g =
    load_slot (first_operand op.op_type op) (after_first op.op_type b op rest) t g
move_at (at_second b op rest) t g =
    load_slot (second_id op.account op.target_account) (at_bank op_transfer b op rest) t g
move_at (at_bank k b op rest) t g = call_bank k b op rest t g
move_at (at_reserve k b op rest) t g =
    some (record t { place = at_clock k b op rest }, record g { bank = reserve_part k op g.bank })
move_at (at_clock k b op rest) t g = some (
  record {
    tx = record (t.tx) { wait_ticks = t.tx.wait_ticks + (g.global_tick - b) };
    place = until_tick (suc g.global_tick) k op rest;
  },
  g,
)
move_at (until_tick n k op rest) t g =
    if ltb g.global_tick n then none else some (record t { place = at_unload k op rest }, g)
move_at (at_unload k op rest) t g = unload_slot (last_operand k op) (after_unload k op rest) t g
move_at (at_last_unload op rest) t g =
    unload_slot (first_id op.account op.target_account) (at_loop rest) t g
move_at (at_refused k op) t g = unload_slot (first_operand k op) (after_refused k op) t g
move_at (at_last_refused op) t g = unload_slot (second_id op.account op.target_account) at_abort t g
move_at at_abort t g = some (
  record { tx = record (t.tx) { status = tx_aborted; actual_end = g.global_tick }; place = ended },
  g,
)
move_at ended t g = none

pub record System : Type 0 where
  pub globals : Globals
  pub threads : List Thread

-- A section of the thread with the given index; none when it has to wait or there is none.
unfoldable pub move_thread : ℕ → List Thread → Globals → Option (List Thread × Globals)
unfolding move_at
move_thread i [] g = none
move_thread zero (t ∷ ts) g = elim (move_at t.place t g) [
  | none ↦ none
  | some (t', g') ↦ some (t' ∷ ts, g')
]
move_thread (suc i) (t ∷ ts) g = elim (move_thread i ts g) [
  | none ↦ none
  | some (ts', g') ↦ some (t ∷ ts', g')
]

pub data Turn : Type 0 where
  clock_turn : Turn
  thread_turn : ℕ → Turn

-- `global_tick++`.
unfoldable pub tick_clock : Globals → Globals
tick_clock g = record g { global_tick = suc g.global_tick }

unfoldable pub take_turn : Turn → System → Option System
unfolding move_thread tick_clock
take_turn clock_turn s = some (record s { globals = tick_clock s.globals })
take_turn (thread_turn i) s = elim (move_thread i s.threads s.globals) [
  | none ↦ none
  | some (ts, g) ↦ some (record { globals = g; threads = ts })
]

-- A whole schedule; none when a thread is given a turn in which it cannot move.
unfoldable pub take_turns : List Turn → System → Option System
unfolding take_turn
take_turns [] s = some s
take_turns (u ∷ us) s = elim (take_turn u s) [ none ↦ none | some s' ↦ take_turns us s' ]

-- The state of `main` when it has started every transaction.
unfoldable pub create_threads : List Transaction → Globals → System
unfolding create_thread
create_threads txs g = record { globals = g; threads = map create_thread txs }
