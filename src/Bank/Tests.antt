-- ===== src/Bank/Tests.antt =====
-- Examples of the theorems: two accounts, a pool with one slot in use, a transaction of two operations.
use cmsc125_lab.Bank.Accounts.{
  Bank, add_to_balance, take_from_balance, add_to_reserve, take_from_reserve, withdraw_locked,
  transfer, calculate_total_balance,
}
use cmsc125_lab.Bank.Accounts.Interleaving.{
  to_add, to_take, settle_due, credits, debits, settles, Steps, done, then_step, Steps-total,
}
use cmsc125_lab.Bank.BufferPool.{
  BufferSlot, BufferPool, init_buffer_pool, load_account, unload_account,
}
use cmsc125_lab.Bank.BufferPool.Promises.{
  PoolOk, Loaded, load_account-Loaded, Unloaded, unload_account-Unloaded, init_buffer_pool-PoolOk,
}
use cmsc125_lab.Bank.BufferPool.Slots.{used_slots, copies}
use cmsc125_lab.Bank.Reports.{conservation_passes, take_turns-passes}
use cmsc125_lab.Bank.Threads.{
  ended, Thread, System, Turn, clock_turn, thread_turn, take_turns, create_threads,
}
use cmsc125_lab.Bank.Threads.Approach.{BeginsWithTransfer}
use cmsc125_lab.Bank.Threads.Deadlock.{IsDeadlocked, transfers-IsDeadlocked}
use cmsc125_lab.Bank.Threads.Dues.{due_at}
use cmsc125_lab.Bank.Threads.Enabled.{HasEnded}
use cmsc125_lab.Bank.Threads.Holdings.{held_by_all}
use cmsc125_lab.Bank.Threads.Money.{due_by_all, take_turns-total}
use cmsc125_lab.Bank.Threads.Progress.{Finishes, take_turns-Finishes}
use cmsc125_lab.Bank.Threads.Schedules.{
  thread_turns, sections_of, take_turns-Reserves, take_turns-bounded,
}
use cmsc125_lab.Bank.Threads.Sections.{IsDecided}
use cmsc125_lab.Bank.Transaction.{
  op_deposit, op_withdraw, op_transfer, tx_running, Transaction, Globals, execute_transaction,
}
use cmsc125_lab.Bank.Transaction.Execution.{Executed, execute_transaction-Executed}
use cmsc125_lab.Bank.Transaction.Outcomes.{InBank, AllInBank}
use cmsc125_lab.Bank.Transaction.Reservations.{Reserves}
use cmsc125_lab.Base.{
  ◌==◌, if◌then◌else◌, All, pos, negsuc, ◌+ℤ◌, ◌-ℤ◌, ◌≤◌, ◌≡◌, refl, true, false, Option, none,
  some, List, [], ◌∷◌, arith,
}

abbrev two_accounts : Bank
two_accounts = record {
  accounts =
      λ i. record { account_id = pos i; balance_centavos = if i == 0 then pos 500 else pos 0 };
  num_accounts = 100;
  reserve_balance_centavos = pos 0;
}

abbrev empty_slot : BufferSlot
empty_slot = record { slot_account = 0; in_use = false }

abbrev new_pool : BufferPool
new_pool = init_buffer_pool (empty_slot ∷ empty_slot ∷ empty_slot ∷ empty_slot ∷ empty_slot ∷ [])

new_pool-PoolOk : PoolOk new_pool
new_pool-PoolOk =
    init_buffer_pool-PoolOk (empty_slot ∷ empty_slot ∷ empty_slot ∷ empty_slot ∷ empty_slot ∷ [])
      refl

load_account-Loaded_example : Loaded 7 new_pool (load_account 7 new_pool)
load_account-Loaded_example = load_account-Loaded 7 new_pool new_pool-PoolOk

abbrev pool_of_one : BufferPool
pool_of_one = record {
  slots =
      record { slot_account = 7; in_use = true }
      ∷ empty_slot
      ∷ empty_slot
      ∷ empty_slot
      ∷ empty_slot
      ∷ [];
  empty_slots = 4;
  total_loads = pos 3;
  total_unloads = pos 2;
  current_usage = pos 1;
  peak_usage = pos 2;
}

pool_of_one-PoolOk : PoolOk pool_of_one
unfolding used_slots ◌+ℤ◌
pool_of_one-PoolOk = record {
  slot_count = refl;
  semaphore = refl;
  usage = refl;
  loads = refl;
  peak_above = omega arith;
  peak_below = omega arith;
}

unload_account-Unloaded_example : Unloaded 7 pool_of_one (unload_account 7 pool_of_one)
unfolding copies
unload_account-Unloaded_example =
    unload_account-Unloaded 7 pool_of_one pool_of_one-PoolOk (omega arith)

abbrev pay_and_fail : Transaction
pay_and_fail = record {
  tx_id = pos 1;
  ops =
      record { op_type = op_transfer; account = 0; amount_centavos = pos 300; target_account = 1 }
      ∷ record { op_type = op_withdraw; account = 0; amount_centavos = pos 300; target_account = 0 }
      ∷ [];
  start_tick = pos 2;
  actual_start = 0;
  actual_end = 0;
  wait_ticks = 0;
  status = tx_running;
}

abbrev at_start : Globals
at_start = record { bank = two_accounts; shared_pool = pool_of_one; global_tick = 0 }

execute_transaction-Executed_example :
    Executed pay_and_fail at_start (execute_transaction (λ _. (0, 1)) pay_and_fail at_start)
unfolding AllInBank InBank
execute_transaction-Executed_example =
    execute_transaction-Executed (λ _. (0, 1)) pay_and_fail at_start
      (((omega arith, omega arith), ((omega arith, omega arith), tt))) pool_of_one-PoolOk
      (omega arith)

-- A deposit of one thread around a withdrawal of another.
abbrev after_both : Bank
after_both = add_to_reserve (pos 50) (
    take_from_reserve (pos 20)
      (take_from_balance 0 (pos 50) (add_to_balance 1 (pos 20) two_accounts)))

enough_money :
    withdraw_locked 0 (pos 50) (add_to_balance 1 (pos 20) two_accounts)
    ≡ some (take_from_balance 0 (pos 50) (add_to_balance 1 (pos 20) two_accounts))
unfolding withdraw_locked add_to_balance
enough_money = refl

interleaved :
    Steps (record { books = two_accounts; dues = [] }) (record { books = after_both; dues = [] })
unfolding settle_due
interleaved = then_step _ _ _ (credits 1 (pos 20) _ (omega arith)) (
    then_step _ _ _
      (debits 0 (pos 50) _ (take_from_balance 0 (pos 50) (add_to_balance 1 (pos 20) two_accounts))
        (omega arith) enough_money)
      (then_step _ _ _ (settles _ (to_add (pos 50) ∷ []) (to_take (pos 20)) [])
        (then_step _ _ _ (settles _ [] (to_add (pos 50)) []) (done _))))

Steps-total_example : calculate_total_balance after_both ≡ calculate_total_balance two_accounts
Steps-total_example = Steps-total two_accounts after_both interleaved

-- Two threads: while the first one transfers, the second one has started.
abbrev pay_only : Transaction
pay_only = record pay_and_fail {
  ops =
      record { op_type = op_transfer; account = 1; amount_centavos = pos 5; target_account = 0 }
      ∷ [];
  start_tick = pos 0;
}

abbrev two_transactions : List Transaction
two_transactions = pay_and_fail ∷ pay_only ∷ []

abbrev some_turns : List Turn
some_turns =
    thread_turn 1
    ∷ clock_turn
    ∷ clock_turn
    ∷ thread_turn 0
    ∷ thread_turn 0
    ∷ thread_turn 1
    ∷ thread_turn 0
    ∷ thread_turn 0
    ∷ thread_turn 1
    ∷ thread_turn 0
    ∷ []

abbrev or_start : Option System → System
or_start none = record { globals = at_start; threads = [] }
or_start (some s) = s

abbrev on_the_way : System
on_the_way = or_start (take_turns some_turns (create_threads two_transactions at_start))

some_turns-run : take_turns some_turns (create_threads two_transactions at_start) ≡ some on_the_way
unfolding take_turns create_threads load_account transfer
some_turns-run = refl

take_turns-Reserves_example :
    Reserves (held_by_all on_the_way.threads) at_start.shared_pool on_the_way.globals.shared_pool
take_turns-Reserves_example =
    take_turns-Reserves some_turns two_transactions at_start on_the_way pool_of_one-PoolOk
      some_turns-run

take_turns-bounded_example : thread_turns some_turns ≤ sections_of two_transactions
take_turns-bounded_example =
    take_turns-bounded some_turns two_transactions at_start on_the_way pool_of_one-PoolOk
      some_turns-run

take_turns-Finishes_example : Finishes at_start.shared_pool on_the_way
take_turns-Finishes_example =
    take_turns-Finishes some_turns two_transactions at_start on_the_way pool_of_one-PoolOk
      (omega arith) some_turns-run

-- A deposit of which only the first half is done, beside a transfer.
abbrev deposit_only : Transaction
deposit_only = record pay_only {
  ops =
      record { op_type = op_deposit; account = 1; amount_centavos = pos 20; target_account = 0 }
      ∷ [];
}

abbrev deposit_and_pay : List Transaction
deposit_and_pay = deposit_only ∷ pay_only ∷ []

abbrev half_turns : List Turn
half_turns =
    thread_turn 0
    ∷ thread_turn 0
    ∷ thread_turn 1
    ∷ thread_turn 0
    ∷ thread_turn 0
    ∷ thread_turn 1
    ∷ thread_turn 0
    ∷ []

abbrev half_done : System
half_done = or_start (take_turns half_turns (create_threads deposit_and_pay at_start))

half_turns-run : take_turns half_turns (create_threads deposit_and_pay at_start) ≡ some half_done
unfolding take_turns create_threads load_account
half_turns-run = refl

half_done_due : due_by_all half_done.threads ≡ negsuc 19
unfolding due_by_all due_at take_turns create_threads load_account ◌+ℤ◌ ◌-ℤ◌
half_done_due = refl

deposit_and_pay-AllInBank : All (λ (t : Transaction). AllInBank t.ops) deposit_and_pay
unfolding AllInBank InBank
deposit_and_pay-AllInBank =
    (((omega arith, omega arith), tt), (((omega arith, omega arith), tt), tt))

take_turns-total_example :
    (calculate_total_balance half_done.globals.bank +ℤ due_by_all half_done.threads
      ≡ calculate_total_balance at_start.bank)
    × All (λ (t : Thread). t.place ≡ ended → IsDecided t.tx.status) half_done.threads
take_turns-total_example =
    take_turns-total half_turns deposit_and_pay at_start half_done deposit_and_pay-AllInBank
      half_turns-run

-- The deposit alone, to its end.
abbrev deposit_turns : List Turn
deposit_turns =
    thread_turn 0
    ∷ thread_turn 0
    ∷ thread_turn 0
    ∷ thread_turn 0
    ∷ thread_turn 0
    ∷ thread_turn 0
    ∷ thread_turn 0
    ∷ clock_turn
    ∷ thread_turn 0
    ∷ thread_turn 0
    ∷ thread_turn 0
    ∷ []

abbrev deposited : System
deposited = or_start (take_turns deposit_turns (create_threads (deposit_only ∷ []) at_start))

deposit_turns-run :
    take_turns deposit_turns (create_threads (deposit_only ∷ []) at_start) ≡ some deposited
unfolding take_turns create_threads load_account
deposit_turns-run = refl

deposited-HasEnded : All HasEnded deposited.threads
unfolding HasEnded take_turns create_threads load_account
deposited-HasEnded = (refl, tt)

take_turns-passes_example : conservation_passes at_start.bank deposited.globals.bank ≡ true
take_turns-passes_example =
    take_turns-passes deposit_turns (deposit_only ∷ []) at_start deposited
      (deposit_and_pay-AllInBank.0, tt) deposit_turns-run deposited-HasEnded

abbrev four_transfers : List Transaction
four_transfers = pay_only ∷ pay_only ∷ pay_only ∷ pay_only ∷ []

pay_only-BeginsWithTransfer : BeginsWithTransfer 0 pay_only
pay_only-BeginsWithTransfer = record {
  is_due = refl;
  first_op = record {
    op_type = op_transfer;
    account = 1;
    amount_centavos = pos 5;
    target_account = 0;
  };
  other_ops = [];
  begins = refl;
  is_transfer = refl;
}

transfers-IsDeadlocked_example : IsDeadlocked four_transfers at_start
transfers-IsDeadlocked_example =
    transfers-IsDeadlocked four_transfers at_start
      (
        pay_only-BeginsWithTransfer,
        (
          pay_only-BeginsWithTransfer,
          (pay_only-BeginsWithTransfer, (pay_only-BeginsWithTransfer, tt)),
        ),
      )
      refl
