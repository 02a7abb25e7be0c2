-- ===== src/Bank/Reports.antt =====
-- The numbers that lab_3/src/metrics.c reports, and the conservation check at the end of
-- lab_3/src/main.c. The averages are `double`: what is modelled is the numbers that they divide.
use cmsc125_lab.Bank.Accounts.{Bank, calculate_total_balance}
use cmsc125_lab.Bank.BufferPool.{buffer_pool_size, BufferPool}
use cmsc125_lab.Bank.Parser.{transaction_end}
use cmsc125_lab.Bank.Threads.{System, Turn, take_turns, create_threads}
use cmsc125_lab.Bank.Threads.Enabled.{HasEnded}
use cmsc125_lab.Bank.Threads.Money.{take_turns-same_total}
use cmsc125_lab.Bank.Transaction.{TxStatus, tx_committed, Transaction, Globals}
use cmsc125_lab.Bank.Transaction.Outcomes.{AllInBank}
use cmsc125_lab.Base.{
  if◌then◌else◌, length, All, ℤ, pos, ◌-ℤ◌, ltb_ℤ, eqb_ℤ, ℕ, ◌+◌, ◌≡◌, refl, Bool, true, false,
  some, List, [], ◌∷◌, arith,
}

-- The entries before the end marker, over which the loops of the reports and of `main` run.
unfoldable pub before_end : List Transaction → List Transaction
before_end [] = []
before_end (t ∷ ts) =
    let rest = before_end ts in if eqb_ℤ t.tx_id transaction_end then [] else t ∷ rest

pub record Summary : Type 0 where
  pub total_tx : ℕ
  pub committed : ℕ
  pub not_committed : ℕ

abbrev pub is_committed : TxStatus → Bool
is_committed tx_committed = true
is_committed _ = false

unfoldable pub count_committed : List Transaction → ℕ
count_committed [] = 0
count_committed (t ∷ ts) = (if is_committed t.status then 1 else 0) + count_committed ts

unfoldable pub count_others : List Transaction → ℕ
count_others [] = 0
count_others (t ∷ ts) = (if is_committed t.status then 0 else 1) + count_others ts

-- `print_summary`, which counts every transaction that has not committed as aborted.
unfoldable pub summary : List Transaction → Summary
unfolding before_end count_committed count_others
summary ts = record {
  total_tx = length (before_end ts);
  committed = count_committed (before_end ts);
  not_committed = count_others (before_end ts);
}

-- `total_wait` of `print_performance_metrics`.
unfoldable pub sum_waits : List Transaction → ℕ
sum_waits [] = 0
sum_waits (t ∷ ts) = t.wait_ticks + sum_waits ts

unfoldable pub total_wait : List Transaction → ℕ
unfolding before_end sum_waits
total_wait ts = sum_waits (before_end ts)

-- The last line of `print_buffer_pool_report`.
unfoldable pub blocked_operations : BufferPool → ℤ
blocked_operations p =
    if ltb_ℤ (pos buffer_pool_size) p.total_loads
    then p.total_loads -ℤ pos buffer_pool_size
    else pos 0

-- `initial_total == final_total` of `main`.
unfoldable pub conservation_passes : Bank → Bank → Bool
unfolding calculate_total_balance
conservation_passes before after =
    eqb_ℤ (calculate_total_balance before) (calculate_total_balance after)

counted : (ts : List Transaction) → count_committed ts + count_others ts ≡ length ts
unfolding count_committed count_others
counted [] = refl
counted (t ∷ ts) = let rest = counted ts in ground arith

-- The two counts of the summary make up the number of transactions.
pub summary-total :
    (ts : List Transaction)
    → (summary ts).committed + (summary ts).not_committed ≡ (summary ts).total_tx
unfolding summary
summary-total ts = counted (before_end ts)

same_total : (a b : ℤ) → b ≡ a → eqb_ℤ a b ≡ true
same_total a b e = ground arith

-- When the operations of all transactions are on accounts of the bank and a schedule of their sections
-- has brought every thread to its end, the conservation check of `main` passes.
pub take_turns-passes :
    (us : List Turn) (txs : List Transaction) (g : Globals) (s : System)
    → All (λ t. AllInBank t.ops) txs
    → take_turns us (create_threads txs g) ≡ some s
    → All HasEnded s.threads
    → conservation_passes g.bank s.globals.bank ≡ true
unfolding conservation_passes
take_turns-passes us txs g s all e over =
    same_total (calculate_total_balance g.bank) (calculate_total_balance s.globals.bank)
      (take_turns-same_total us txs g s all e over)
