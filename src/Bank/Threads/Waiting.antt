-- ===== src/Bank/Threads/Waiting.antt =====
-- lab_3/src/transaction.c, the case OP_TRANSFER: a transfer keeps the slot of its first account while it
-- waits for the second one. When all threads do so, none moves.
use cmsc125_lab.Bank.BufferPool.{load_account}
use cmsc125_lab.Bank.Threads.{
  Place, at_second, Thread, load_slot, move_at, System, move_thread, Turn, clock_turn, thread_turn,
  tick_clock, take_turn, take_turns,
}
use cmsc125_lab.Bank.Transaction.{Operation, Globals}
use cmsc125_lab.Base.{All, ℕ, zero, suc, ◌≡◌, refl, sym, subst, Option, none, some, List, [], ◌∷◌}

-- The thread holds the slot of its first account, and waits for one for its second account.
unfoldable pub WaitsForSecond : Thread → Type 0
WaitsForSecond t =
    (b : ℕ) × (op : Operation) × (rest : List Operation) × (t.place ≡ at_second b op rest)

no_slot :
    (i : ℕ) (next : Place) (t : Thread) (g : Globals)
    → g.shared_pool.empty_slots ≡ 0
    → load_slot i next t g ≡ none
unfolding load_slot load_account
no_slot i next t g e = rw e refl

second_waits :
    (p : Place) (t : Thread) (g : Globals) (b : ℕ) (op : Operation) (rest : List Operation)
    → g.shared_pool.empty_slots ≡ 0
    → p ≡ at_second b op rest
    → move_at p t g ≡ none
unfolding move_at
second_waits p t g b op rest full e =
    subst (λ p'. move_at p' t g ≡ none) (sym e) (no_slot _ _ t g full)

nobody_moves :
    (i : ℕ) (ts : List Thread) (g : Globals)
    → g.shared_pool.empty_slots ≡ 0
    → All WaitsForSecond ts
    → move_thread i ts g ≡ none
unfolding move_thread WaitsForSecond
nobody_moves i [] g full all = refl
nobody_moves zero (t ∷ ts) g full ((b, op, rest, e), all) =
    rw (second_waits t.place t g b op rest full e, move_thread) refl
nobody_moves (suc i) (t ∷ ts) g full (w, all) = rw (nobody_moves i ts g full all, move_thread) refl

unfoldable pub StaysWith : List Thread → Option System → Type 0
StaysWith ts none = Unit {0}
StaysWith ts (some s) = s.threads ≡ ts

pub jammed-StaysWith :
    (us : List Turn) (s : System)
    → s.globals.shared_pool.empty_slots ≡ 0
    → All WaitsForSecond s.threads
    → StaysWith s.threads (take_turns us s)
unfolding take_turns take_turn StaysWith tick_clock
jammed-StaysWith [] s full all = refl
jammed-StaysWith (clock_turn ∷ us) s full all =
    jammed-StaysWith us (record s { globals = tick_clock s.globals }) full all
jammed-StaysWith (thread_turn i ∷ us) s full all =
    rw (nobody_moves i s.threads s.globals full all, take_turns, take_turn) tt
