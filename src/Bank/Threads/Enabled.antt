-- ===== src/Bank/Threads/Enabled.antt =====
-- lab_3/src/transaction.c: what a thread waits for. Once the clock is late enough, some thread can move,
-- or each has returned or waits for a slot.
use cmsc125_lab.Bank.BufferPool.{load_account}
use cmsc125_lab.Bank.Threads.{
  Place, starting, at_beginning, at_loop, at_first, at_second, at_bank, at_reserve, at_clock,
  until_tick, at_unload, at_last_unload, at_refused, at_last_refused, at_abort, ended, Thread,
  load_slot, unload_slot, call_bank, move_at, move_thread,
}
use cmsc125_lab.Bank.Threads.Holdings.{held_at, held_by_all}
use cmsc125_lab.Bank.Transaction.{OpType, Operation, Transaction, Globals}
use cmsc125_lab.Base.{
  ltb, length, length-append, All, ℤ, pos, pos_part, ltb_ℤ, ℕ, suc, ◌+◌, ◌≤◌, ◌≡◌, refl, ◌≢◌, ◌⊎◌,
  inl, inr, false, Option, none, some, List, [], ◌∷◌, arith,
}

-- The tick that a thread waits for.
unfoldable pub awaited_tick : Place → Transaction → ℕ
awaited_tick starting t = pos_part t.start_tick
awaited_tick (until_tick n k op rest) t = n
awaited_tick _ t = 0

unfoldable pub awaited_ticks : List Thread → ℕ
unfolding awaited_tick
awaited_ticks [] = 0
awaited_ticks (t ∷ ts) = awaited_tick t.place t.tx + awaited_ticks ts

-- A thread that has nothing to wait for but a slot.
IsWaiting : Place → Globals → Type 0
IsWaiting p g = (p ≡ ended) ⊎ ((g.shared_pool.empty_slots ≡ 0) × (length (held_at p) ≤ 1))

load_slot-waits :
    (i : ℕ) (next : Place) (t : Thread) (g : Globals)
    → load_slot i next t g ≡ none
    → g.shared_pool.empty_slots ≡ 0
unfolding load_slot load_account
load_slot-waits i next t g e = ground arith

call_bank-runs :
    (k : OpType) (b : ℕ) (op : Operation) (rest : List Operation) (t : Thread) (g : Globals)
    → call_bank k b op rest t g ≢ none
unfolding call_bank
call_bank-runs k b op rest t g e = ground arith

not_early : (n : ℤ) (m : ℕ) → pos_part n ≤ m → ltb_ℤ (pos m) n ≡ false
not_early n m h = ground arith

reached : (n m : ℕ) → n ≤ m → ltb m n ≡ false
reached n m h = ground arith

-- Once the clock is late enough, a thread that cannot move has ended or waits for a slot.
move_at-IsWaiting :
    (p : Place) (t : Thread) (g : Globals)
    → awaited_tick p t.tx ≤ g.global_tick
    → move_at p t g ≡ none
    → IsWaiting p g
unfolding move_at awaited_tick IsWaiting held_at unload_slot
move_at-IsWaiting starting t g h e =
    let late = not_early t.tx.start_tick g.global_tick h in absurd (ground (arith, late))
move_at-IsWaiting at_beginning t g h e = absurd (ground arith)
move_at-IsWaiting (at_loop []) t g h e = absurd (ground arith)
move_at-IsWaiting (at_loop (op ∷ rest)) t g h e = absurd (ground arith)
move_at-IsWaiting (at_first b op rest) t g h e = inr (load_slot-waits _ _ t g e, omega arith)
move_at-IsWaiting (at_second b op rest) t g h e = inr (load_slot-waits _ _ t g e, omega arith)
move_at-IsWaiting (at_bank k b op rest) t g h e = absurd (call_bank-runs k b op rest t g e)
move_at-IsWaiting (at_reserve k b op rest) t g h e = absurd (ground arith)
move_at-IsWaiting (at_clock k b op rest) t g h e = absurd (ground arith)
move_at-IsWaiting (until_tick n k op rest) t g h e =
    let late = reached n g.global_tick h in absurd (ground (arith, late))
move_at-IsWaiting (at_unload k op rest) t g h e = absurd (ground arith)
move_at-IsWaiting (at_last_unload op rest) t g h e = absurd (ground arith)
move_at-IsWaiting (at_refused k op) t g h e = absurd (ground arith)
move_at-IsWaiting (at_last_refused op) t g h e = absurd (ground arith)
move_at-IsWaiting at_abort t g h e = absurd (ground arith)
move_at-IsWaiting ended t g h e = inl refl

unfoldable pub HasEnded : Thread → Type 0
HasEnded t = t.place ≡ ended

-- Either one of the threads can move, or each has ended, or the pool is full; in the last two cases
-- no thread holds more than one slot.
unfoldable pub CanMove : List Thread → Globals → Type 0
CanMove ts g =
    (i : ℕ) × (ts' : List Thread) × (g' : Globals) × (move_thread i ts g ≡ some (ts', g'))

unfoldable pub AllWait : List Thread → Globals → Type 0
AllWait ts g =
    (All HasEnded ts ⊎ (g.shared_pool.empty_slots ≡ 0)) × (length (held_by_all ts) ≤ length ts)

pub ended_held : (p : Place) → p ≡ ended → held_at p ≡ []
unfolding held_at
ended_held p e = rw e refl

add-AllWait :
    (t : Thread) (ts : List Thread) (g : Globals)
    → IsWaiting t.place g
    → AllWait ts g
    → AllWait (t ∷ ts) g
unfolding IsWaiting AllWait held_by_all HasEnded
add-AllWait t ts g (inl e) (inl all, le) = (inl (e, all), rw (ended_held t.place e) (omega arith))
add-AllWait t ts g (inl e) (inr full, le) = (inr full, rw (ended_held t.place e) (omega arith))
add-AllWait t ts g (inr (full, one)) (w, le) =
    (inr full, omega (arith, length-append (held_at t.place) (held_by_all ts)))

add-CanMove : (t : Thread) (ts : List Thread) (g : Globals) → CanMove ts g → CanMove (t ∷ ts) g
unfolding CanMove move_thread
add-CanMove t ts g (i, ts', g', e) = (suc i, t ∷ ts', g', rw e refl)

head-CanMove :
    (t : Thread) (ts : List Thread) (g : Globals) (r : Thread × Globals)
    → move_at t.place t g ≡ some r
    → CanMove (t ∷ ts) g
unfolding CanMove move_thread
head-CanMove t ts g (t', g') e = (0, t' ∷ ts, g', rw (e, move_thread) refl)

pub some_moves :
    (ts : List Thread) (g : Globals)
    → awaited_ticks ts ≤ g.global_tick
    → CanMove ts g ⊎ AllWait ts g
unfolding awaited_ticks AllWait held_by_all
some_moves [] g h = inr (inl tt, omega arith)
some_moves (t ∷ ts) g h = by_head (move_at t.place t g) refl (some_moves ts g (omega arith))
  where
    by_head :
        (o : Option (Thread × Globals))
        → move_at t.place t g ≡ o
        → CanMove ts g ⊎ AllWait ts g
        → CanMove (t ∷ ts) g ⊎ AllWait (t ∷ ts) g
    by_head (some r) e rest = inl (head-CanMove t ts g r e)
    by_head none e (inl c) = inl (add-CanMove t ts g c)
    by_head none e (inr w) =
        inr (add-AllWait t ts g (move_at-IsWaiting t.place t g (omega arith) e) w)
