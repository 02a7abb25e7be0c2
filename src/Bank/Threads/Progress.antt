-- ===== src/Bank/Threads/Progress.antt =====
-- lab_3/src/transaction.c: threads that are fewer than the slots of the pool can always be brought to
-- their end. A thread that waits for a slot holds at most one, so one slot is free.
use cmsc125_lab.Bank.BufferPool.{BufferPool}
use cmsc125_lab.Bank.BufferPool.Promises.{PoolOk}
use cmsc125_lab.Bank.Threads.{
  Thread, create_thread, System, move_thread, Turn, clock_turn, thread_turn, tick_clock, take_turn,
  take_turns, create_threads,
}
use cmsc125_lab.Bank.Threads.Enabled.{
  awaited_ticks, HasEnded, CanMove, AllWait, ended_held, some_moves,
}
use cmsc125_lab.Bank.Threads.Holdings.{held_by_all, all_sections_left}
use cmsc125_lab.Bank.Threads.Schedules.{alone-AllMovedOr, drop_none-Reserves, after_schedule}
use cmsc125_lab.Bank.Threads.Together.{AllMovedOr}
use cmsc125_lab.Bank.Transaction.{Transaction, Globals}
use cmsc125_lab.Bank.Transaction.Reservations.{Reserves}
use cmsc125_lab.Base.{
  length, All, ℕ, zero, suc, ◌+◌, ◌≤◌, ◌<◌, ◌≡◌, refl, ap, ◌∙◌, subst, ◌≢◌, inl, inr, some, List,
  [], ◌∷◌, map, arith,
}

-- A schedule from here on after which every thread has returned and the pool has every slot back.
pub record Finishes (q : BufferPool) (s : System) : Type 0 where
  pub turns : List Turn
  pub last : System
  pub reached_last : take_turns turns s ≡ some last
  pub all_ended : All HasEnded last.threads
  pub returned : Reserves [] q last.globals.shared_pool

Finishes-tick :
    (q : BufferPool) (g : Globals) (ts : List Thread)
    → Finishes q (record { globals = tick_clock g; threads = ts })
    → Finishes q (record { globals = g; threads = ts })
unfolding take_turns take_turn
Finishes-tick q g ts f = record {
  turns = clock_turn ∷ f.turns;
  last = f.last;
  reached_last = f.reached_last;
  all_ended = f.all_ended;
  returned = f.returned;
}

Finishes-move :
    (q : BufferPool) (g g' : Globals) (ts ts' : List Thread) (i : ℕ)
    → move_thread i ts g ≡ some (ts', g')
    → Finishes q (record { globals = g'; threads = ts' })
    → Finishes q (record { globals = g; threads = ts })
unfolding take_turns take_turn
Finishes-move q g g' ts ts' i e f = record {
  turns = thread_turn i ∷ f.turns;
  last = f.last;
  reached_last = rw (e, take_turns, take_turn) f.reached_last;
  all_ended = f.all_ended;
  returned = f.returned;
}

at_tick : ℕ → Globals → Globals
at_tick n g = record g { global_tick = n }

-- Letting the clock run first.
Finishes-later :
    (n : ℕ) (q : BufferPool) (g : Globals) (ts : List Thread)
    → Finishes q (record { globals = at_tick (n + g.global_tick) g; threads = ts })
    → Finishes q (record { globals = g; threads = ts })
unfolding tick_clock at_tick
Finishes-later zero q g ts f =
    subst (λ m. Finishes q (record { globals = at_tick m g; threads = ts })) (omega arith) f
Finishes-later (suc n) q g ts f = Finishes-tick q g ts (
    Finishes-later n q (tick_clock g) ts
      (subst (λ m. Finishes q (record { globals = at_tick m g; threads = ts })) (omega arith) f))

nothing_held : (ts : List Thread) → All HasEnded ts → held_by_all ts ≡ []
unfolding held_by_all HasEnded
nothing_held [] all = refl
nothing_held (t ∷ ts) (e, all) = rw (ended_held t.place e) (nothing_held ts all)

Finishes-now :
    (q : BufferPool) (g : Globals) (ts : List Thread)
    → Reserves (held_by_all ts) q g.shared_pool
    → All HasEnded ts
    → Finishes q (record { globals = g; threads = ts })
unfolding take_turns
Finishes-now q g ts r all = record {
  turns = [];
  last = record { globals = g; threads = ts };
  reached_last = refl;
  all_ended = all;
  returned = subst (λ l. Reserves l q g.shared_pool) (nothing_held ts all) r;
}

-- The slots of the pool cannot all be held when each thread holds one at most.
not_full :
    (q : BufferPool) (g : Globals) (ts : List Thread)
    → Reserves (held_by_all ts) q g.shared_pool
    → length ts < q.empty_slots
    → length (held_by_all ts) ≤ length ts
    → g.shared_pool.empty_slots ≢ 0
not_full q g ts r few le full = omega (arith, r.taken)

-- By induction on the sections left: the clock runs until nobody waits for it, then one thread moves.
finish-Finishes :
    (n : ℕ) (q : BufferPool) (g : Globals) (ts : List Thread)
    → Reserves (held_by_all ts) q g.shared_pool
    → length ts < q.empty_slots
    → all_sections_left ts < n
    → Finishes q (record { globals = g; threads = ts })
unfolding at_tick AllMovedOr CanMove AllWait
finish-Finishes zero q g ts r few h = absurd (omega arith)
finish-Finishes (suc n) q g ts r few h =
    Finishes-later (awaited_ticks ts) q g ts
      (elim (some_moves ts (at_tick (awaited_ticks ts + g.global_tick) g) (omega arith)) [
        | inl (i, ts', g', e) ↦
            let (r', less, same) = subst (AllMovedOr [] q ts) e (alone-AllMovedOr i q ts _ r) in
            Finishes-move q _ g' ts ts' i e
              (finish-Finishes n q g' ts' (drop_none-Reserves _ q _ r') (rw same few) (omega arith))
        | inr (inl all, le) ↦ Finishes-now q _ ts r all
        | inr (inr full, le) ↦ absurd (not_full q g ts r few le full)
      ])

length-threads : (txs : List Transaction) → length (map create_thread txs) ≡ length txs
length-threads [] = refl
length-threads (t ∷ txs) = ap suc (length-threads txs)

-- From a pool in order, with fewer transactions than free slots: wherever a schedule has brought the
-- threads, some schedule from there on lets every one of them return, and then every slot they have
-- loaded is free again.
pub take_turns-Finishes :
    (us : List Turn) (txs : List Transaction) (g : Globals) (s : System)
    → PoolOk g.shared_pool
    → length txs < g.shared_pool.empty_slots
    → take_turns us (create_threads txs g) ≡ some s
    → Finishes g.shared_pool s
take_turns-Finishes us txs g s ok few e =
    let (r, b, same) = after_schedule us txs g s ok e in
    finish-Finishes (suc (all_sections_left s.threads)) g.shared_pool s.globals s.threads r
      (rw (same ∙ length-threads txs) few) (omega arith)
