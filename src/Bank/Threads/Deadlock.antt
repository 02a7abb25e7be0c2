-- ===== src/Bank/Threads/Deadlock.antt =====
-- lab_3/src/transaction.c, the case OP_TRANSFER: a transfer keeps the slot of its first account while it
-- waits for the second one.
use cmsc125_lab.Bank.BufferPool.{occupy}
use cmsc125_lab.Bank.Threads.{create_thread, System, Turn, take_turns, create_threads}
use cmsc125_lab.Bank.Threads.Approach.{
  BeginsWithTransfer, loaded_first, with_first, first_four, four_turns, shift, behind,
  behind_option, shifted_turns,
}
use cmsc125_lab.Bank.Threads.Waiting.{WaitsForSecond, StaysWith, jammed-StaysWith}
use cmsc125_lab.Bank.Transaction.{Transaction, Globals}
use cmsc125_lab.Base.{
  length, All, ℕ, ◌+◌, ◌≤◌, ◌≡◌, refl, ap, ◌∙◌, subst, some, List, [], ◌∷◌, map, arith,
}

AllBegin : ℕ → List Transaction → Type 0
AllBegin now txs = All (BeginsWithTransfer now) txs

-- What a schedule leaves: every thread waits for its second account.
record Jammed (n : ℕ) (txs : List Transaction) (g : Globals) : Type 0 where
  turns : List Turn
  last : System
  reaches : take_turns turns (create_threads txs g) ≡ some last
  all_wait : All WaitsForSecond last.threads
  slots_left : n + last.globals.shared_pool.empty_slots ≡ g.shared_pool.empty_slots

jam-rest :
    (txs : List Transaction) (g : Globals)
    → AllBegin g.global_tick txs
    → length txs ≤ g.shared_pool.empty_slots
    → Jammed (length txs) txs g
unfolding AllBegin create_threads take_turns with_first occupy WaitsForSecond behind_option behind
    loaded_first
jam-rest [] g all room = record {
  turns = [];
  last = record { globals = g; threads = [] };
  reaches = refl;
  all_wait = tt;
  slots_left = omega arith;
}
jam-rest (t ∷ txs) g (w, all) room =
    let j = jam-rest txs (with_first w.first_op g) all (omega arith) in
    let first = loaded_first g.global_tick w.first_op w.other_ops t in
    record {
      turns = first_four (shift j.turns);
      last = behind first j.last;
      reaches =
          four_turns (shift j.turns) t (map create_thread txs) g w (omega arith)
          ∙ shifted_turns j.turns first (create_threads txs (with_first w.first_op g))
          ∙ ap (behind_option first) j.reaches;
      all_wait = ((g.global_tick, w.first_op, w.other_ops, refl), j.all_wait);
      slots_left = let e = j.slots_left in omega arith;
    }

-- A state that a schedule reaches and no schedule leaves: no thread of it has returned, and whatever
-- turns follow, no thread moves.
pub record IsDeadlocked (txs : List Transaction) (g : Globals) : Type 0 where
  pub path : List Turn
  pub stuck : System
  pub reaches_stuck : take_turns path (create_threads txs g) ≡ some stuck
  pub waiting : All WaitsForSecond stuck.threads
  pub stays :
      (us : List Turn) (s : System) → take_turns us stuck ≡ some s → s.threads ≡ stuck.threads

-- As many transactions as the pool has free slots, each of them due and beginning with a transfer, can
-- come to a deadlock: each has loaded its first account and waits for its second one, and no thread
-- ever moves again.
pub transfers-IsDeadlocked :
    (txs : List Transaction) (g : Globals)
    → All (BeginsWithTransfer g.global_tick) txs
    → length txs ≡ g.shared_pool.empty_slots
    → IsDeadlocked txs g
unfolding AllBegin StaysWith
transfers-IsDeadlocked txs g all e =
    let j = jam-rest txs g all (omega arith) in
    record {
      path = j.turns;
      stuck = j.last;
      reaches_stuck = j.reaches;
      waiting = j.all_wait;
      stays = λ us s r.
          subst (StaysWith j.last.threads) r
            (jammed-StaysWith us j.last (let l = j.slots_left in omega arith) j.all_wait);
    }
