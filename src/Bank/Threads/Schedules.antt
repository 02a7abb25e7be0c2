-- ===== src/Bank/Threads/Schedules.antt =====
-- lab_3/src/transaction.c: whatever the order in which the threads run, the pool accounts for every
-- slot they hold, and every schedule of them is finite.
use cmsc125_lab.Bank.BufferPool.{BufferPool}
use cmsc125_lab.Bank.BufferPool.Promises.{PoolOk}
use cmsc125_lab.Bank.Threads.{
  Thread, create_thread, System, move_thread, Turn, clock_turn, thread_turn, tick_clock, take_turn,
  take_turns, create_threads,
}
use cmsc125_lab.Bank.Threads.Holdings.{held_at, held_by_all, sections_left, all_sections_left}
use cmsc125_lab.Bank.Threads.Together.{
  recounted-Reserves, count_laws, AllMovedOr, move_thread-AllMovedOr,
}
use cmsc125_lab.Bank.Transaction.{Transaction, Globals}
use cmsc125_lab.Bank.Transaction.Reservations.{Reserves, Reserves-none}
use cmsc125_lab.Base.{
  length, ℕ, suc, ◌+◌, ◌*◌, ◌≤◌, ◌<◌, ◌≡◌, refl, sym, ◌∙◌, subst, Option, none, some, List, [], ◌∷◌,
  ◌++◌, map, arith,
}

pub alone-AllMovedOr :
    (i : ℕ) (q : BufferPool) (ts : List Thread) (g : Globals)
    → Reserves (held_by_all ts) q g.shared_pool
    → AllMovedOr [] q ts (move_thread i ts g)
alone-AllMovedOr i q ts g r = move_thread-AllMovedOr i [] q ts g (
    recounted-Reserves (held_by_all ts) (held_by_all ts ++ []) q g.shared_pool (grind count_laws)
      (λ k. grind count_laws) r)

pub drop_none-Reserves :
    (is : List ℕ) (q p : BufferPool) → Reserves (is ++ []) q p → Reserves is q p
drop_none-Reserves is q p r =
    recounted-Reserves (is ++ []) is q p (grind count_laws) (λ k. grind count_laws) r

-- The turns of a schedule that a thread takes.
unfoldable pub thread_turns : List Turn → ℕ
thread_turns [] = 0
thread_turns (clock_turn ∷ us) = thread_turns us
thread_turns (thread_turn i ∷ us) = suc (thread_turns us)

abbrev pub AfterTurns : BufferPool → ℕ → List Thread → Option System → Type 0
AfterTurns q n ts none = Unit {0}
AfterTurns q n ts (some s) =
    Reserves (held_by_all s.threads) q s.globals.shared_pool
    × (n + all_sections_left s.threads ≤ all_sections_left ts)
    × (length s.threads ≡ length ts)

turn-AfterTurns :
    (q : BufferPool) (ts : List Thread) (o : Option (List Thread × Globals))
    → AllMovedOr [] q ts o
    → AfterTurns q 1 ts
        (elim o [ none ↦ none | some (ts', g) ↦ some (record { globals = g; threads = ts' }) ])
unfolding AllMovedOr
turn-AfterTurns q ts none m = tt
turn-AfterTurns q ts (some (ts', g)) (r, less, same) =
    (drop_none-Reserves (held_by_all ts') q g.shared_pool r, omega arith, same)

weaken-AfterTurns :
    (q : BufferPool) (n : ℕ) (ts ts' : List Thread) (o : Option System)
    → all_sections_left ts' < all_sections_left ts
    → length ts' ≡ length ts
    → AfterTurns q n ts' o
    → AfterTurns q (suc n) ts o
weaken-AfterTurns q n ts ts' none h same a = tt
weaken-AfterTurns q n ts ts' (some s) h same (r, b, l) = (r, omega arith, l ∙ same)

-- The induction step after one thread's turn, whose hypothesis is `ih`.
then-AfterTurns :
    (q : BufferPool) (us : List Turn) (ts : List Thread) (o : Option System)
    → ((s : System)
        → Reserves (held_by_all s.threads) q s.globals.shared_pool
        → AfterTurns q (thread_turns us) s.threads (take_turns us s))
    → AfterTurns q 1 ts o
    → AfterTurns q (suc (thread_turns us)) ts (elim o [ none ↦ none | some s ↦ take_turns us s ])
then-AfterTurns q us ts none ih a = tt
then-AfterTurns q us ts (some s) ih (r, b, l) =
    weaken-AfterTurns q (thread_turns us) ts s.threads (take_turns us s) (omega arith) l (ih s r)

take_turns-AfterTurns :
    (q : BufferPool) (us : List Turn) (s : System)
    → Reserves (held_by_all s.threads) q s.globals.shared_pool
    → AfterTurns q (thread_turns us) s.threads (take_turns us s)
unfolding take_turns take_turn thread_turns tick_clock
take_turns-AfterTurns q [] s r = (r, omega arith, refl)
take_turns-AfterTurns q (clock_turn ∷ us) s r =
    take_turns-AfterTurns q us (record s { globals = tick_clock s.globals }) r
take_turns-AfterTurns q (thread_turn i ∷ us) s r =
    then-AfterTurns q us s.threads _ (take_turns-AfterTurns q us) (
      turn-AfterTurns q s.threads (move_thread i s.threads s.globals)
        (alone-AllMovedOr i q s.threads s.globals r))

-- Two sections for the start, one for the end, and at most eight for each operation.
unfoldable pub sections_of : List Transaction → ℕ
sections_of [] = 0
sections_of (t ∷ txs) = 3 + 8 * length t.ops + sections_of txs

created_left :
    (txs : List Transaction) → all_sections_left (map create_thread txs) ≡ sections_of txs
unfolding all_sections_left sections_left create_thread sections_of
created_left [] = refl
created_left (t ∷ txs) = let rest = created_left txs in omega arith

pub created_held : (txs : List Transaction) → held_by_all (map create_thread txs) ≡ []
unfolding held_by_all held_at create_thread
created_held [] = refl
created_held (t ∷ txs) = created_held txs

pub created-Reserves :
    (txs : List Transaction) (g : Globals)
    → PoolOk g.shared_pool
    → Reserves (held_by_all (map create_thread txs)) g.shared_pool g.shared_pool
created-Reserves txs g ok =
    subst (λ l. Reserves l g.shared_pool g.shared_pool) (sym (created_held txs))
      (Reserves-none g.shared_pool ok)

pub after_schedule :
    (us : List Turn) (txs : List Transaction) (g : Globals) (s : System)
    → PoolOk g.shared_pool
    → take_turns us (create_threads txs g) ≡ some s
    → AfterTurns g.shared_pool (thread_turns us) (map create_thread txs) (some s)
unfolding create_threads
after_schedule us txs g s ok e =
    subst (AfterTurns g.shared_pool (thread_turns us) (map create_thread txs)) e
      (take_turns-AfterTurns g.shared_pool us (create_threads txs g) (created-Reserves txs g ok))

-- From a pool in order, and after any schedule of the threads: the pool is in order, it holds each
-- account exactly as often more as the threads hold it, and it has exactly as many free slots less.
pub take_turns-Reserves :
    (us : List Turn) (txs : List Transaction) (g : Globals) (s : System)
    → PoolOk g.shared_pool
    → take_turns us (create_threads txs g) ≡ some s
    → Reserves (held_by_all s.threads) g.shared_pool s.globals.shared_pool
take_turns-Reserves us txs g s ok e = (after_schedule us txs g s ok e).0

-- From a pool in order, no schedule, however it mixes the threads, gives them more turns than two for
-- the start and one for the end of each transaction and eight for each of its operations.
pub take_turns-bounded :
    (us : List Turn) (txs : List Transaction) (g : Globals) (s : System)
    → PoolOk g.shared_pool
    → take_turns us (create_threads txs g) ≡ some s
    → thread_turns us ≤ sections_of txs
take_turns-bounded us txs g s ok e =
    let (r, b, same) = after_schedule us txs g s ok e in let c = created_left txs in omega arith
