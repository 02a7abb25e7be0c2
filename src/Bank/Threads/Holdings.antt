-- ===== src/Bank/Threads/Holdings.antt =====
-- The slots that the threads of lab_3/src/transaction.c hold at each place, and the sections that each
-- has left at most.
use cmsc125_lab.Bank.Accounts.{Bank, first_id, second_id}
use cmsc125_lab.Bank.BufferPool.{BufferPool, load_account, unload_account}
use cmsc125_lab.Bank.BufferPool.Promises.{Loaded, load_account-Loaded}
use cmsc125_lab.Bank.Threads.{
  Place, starting, at_beginning, at_loop, at_first, at_second, at_bank, at_reserve, at_clock,
  until_tick, at_unload, at_last_unload, at_refused, at_last_refused, at_abort, ended, Thread,
  load_slot, unload_slot, after_locked,
}
use cmsc125_lab.Bank.Transaction.{
  OpType, op_deposit, op_withdraw, op_transfer, op_balance, Operation, Transaction, Globals,
}
use cmsc125_lab.Bank.Transaction.Operands.{operands}
use cmsc125_lab.Bank.Transaction.Reservations.{Reserves, occupy-Reserves, unload-Reserves}
use cmsc125_lab.Base.{
  length, ℕ, ◌+◌, ◌*◌, ◌<◌, ◌≡◌, refl, sym, subst, Option, none, some, List, [], ◌∷◌, ◌++◌, arith,
}

-- The accounts that a thread has loaded and not unloaded.
unfoldable pub held_at : Place → List ℕ
unfolding operands
held_at (at_second b op rest) = first_id op.account op.target_account ∷ []
held_at (at_bank k b op rest) = operands k op
held_at (at_reserve k b op rest) = operands k op
held_at (at_clock k b op rest) = operands k op
held_at (until_tick n k op rest) = operands k op
held_at (at_unload k op rest) = operands k op
held_at (at_last_unload op rest) = first_id op.account op.target_account ∷ []
held_at (at_refused k op) = operands k op
held_at (at_last_refused op) = second_id op.account op.target_account ∷ []
held_at _ = []

unfoldable pub held_by_all : List Thread → List ℕ
unfolding held_at
held_by_all [] = []
held_by_all (t ∷ ts) = held_at t.place ++ held_by_all ts

-- At most eight sections for each operation, two for the start and one for the end.
unfoldable pub sections_left : Place → Transaction → ℕ
sections_left starting t = 3 + 8 * length t.ops
sections_left at_beginning t = 2 + 8 * length t.ops
sections_left (at_loop rest) t = 1 + 8 * length rest
sections_left (at_first b op rest) t = 8 + 8 * length rest
sections_left (at_second b op rest) t = 7 + 8 * length rest
sections_left (at_bank op_transfer b op rest) t = 6 + 8 * length rest
sections_left (at_bank k b op rest) t = 7 + 8 * length rest
sections_left (at_reserve k b op rest) t = 6 + 8 * length rest
sections_left (at_clock k b op rest) t = 5 + 8 * length rest
sections_left (until_tick n k op rest) t = 4 + 8 * length rest
sections_left (at_unload k op rest) t = 3 + 8 * length rest
sections_left (at_last_unload op rest) t = 2 + 8 * length rest
sections_left (at_refused k op) t = 3
sections_left (at_last_refused op) t = 2
sections_left at_abort t = 1
sections_left ended t = 0

unfoldable pub all_sections_left : List Thread → ℕ
unfolding sections_left
all_sections_left [] = 0
all_sections_left (t ∷ ts) = sections_left t.place t.tx + all_sections_left ts

-- One section of a thread that stands at `p`, while the other threads hold `others`: the slots in use
-- of `q` stay exactly the ones held, and one section less is left.
pub record Moved (others : List ℕ) (q : BufferPool) (p : Place) (t : Thread) (t' : Thread)
    (g' : Globals) : Type 0 where
  pub reserves : Reserves (held_at t'.place ++ others) q g'.shared_pool
  pub fewer : sections_left t'.place t'.tx < sections_left p t.tx

unfoldable pub MovedOr : List ℕ → BufferPool → Place → Thread → Option (Thread × Globals) → Type 0
MovedOr others q p t none = Unit {0}
MovedOr others q p t (some (t', g')) = Moved others q p t t' g'

-- What a `load_account` that may wait adds to the slots lent.
LendsOr : List ℕ → BufferPool → Option BufferPool → Type 0
LendsOr is q none = Unit {0}
LendsOr is q (some p) = Reserves is q p

load_some-LendsOr :
    (i : ℕ) (is : List ℕ) (q p : BufferPool) (o : Option BufferPool)
    → Reserves is q p
    → Loaded i p o
    → LendsOr (i ∷ is) q o
unfolding LendsOr
load_some-LendsOr i is q p none r l = tt
load_some-LendsOr i is q p (some p') r l = occupy-Reserves i is q p p' r l

loaded-MovedOr :
    (others is : List ℕ) (q : BufferPool) (p next : Place) (t : Thread) (g : Globals)
    (o : Option BufferPool)
    → LendsOr is q o
    → held_at next ++ others ≡ is
    → sections_left next t.tx < sections_left p t.tx
    → MovedOr others q p t (elim o [
      | none ↦ none
      | some p' ↦ some (record t { place = next }, record g { shared_pool = p' })
    ])
unfolding MovedOr LendsOr
loaded-MovedOr others is q p next t g none l e h = tt
loaded-MovedOr others is q p next t g (some p') l e h = record {
  reserves = subst (λ m. Reserves m q p') (sym e) l;
  fewer = h;
}

pub load_slot-MovedOr :
    (i : ℕ) (others is : List ℕ) (q : BufferPool) (p next : Place) (t : Thread) (g : Globals)
    → Reserves is q g.shared_pool
    → held_at next ++ others ≡ i ∷ is
    → sections_left next t.tx < sections_left p t.tx
    → MovedOr others q p t (load_slot i next t g)
unfolding load_slot
load_slot-MovedOr i others is q p next t g r e h =
    loaded-MovedOr others (i ∷ is) q p next t g (load_account i g.shared_pool)
      (load_some-LendsOr i is q g.shared_pool _ r (load_account-Loaded i g.shared_pool r.in_order))
      e h

pub unload_slot-MovedOr :
    (i : ℕ) (others is : List ℕ) (q : BufferPool) (p next : Place) (t : Thread) (g : Globals)
    → Reserves (i ∷ is) q g.shared_pool
    → held_at next ++ others ≡ is
    → sections_left next t.tx < sections_left p t.tx
    → MovedOr others q p t (unload_slot i next t g)
unfolding MovedOr unload_slot
unload_slot-MovedOr i others is q p next t g r e h = record {
  reserves =
      subst (λ l. Reserves l q (unload_account i g.shared_pool)) (sym e)
        (unload-Reserves i is q g.shared_pool r);
  fewer = h;
}

held_after_locked :
    (k : OpType) (b : ℕ) (op : Operation) (rest : List Operation)
    → held_at (after_locked k b op rest) ≡ operands k op
unfolding held_at after_locked
held_after_locked op_deposit b op rest = refl
held_after_locked op_withdraw b op rest = refl
held_after_locked op_transfer b op rest = refl
held_after_locked op_balance b op rest = refl

locked_fewer :
    (k : OpType) (b : ℕ) (op : Operation) (rest : List Operation) (t : Transaction)
    → sections_left (after_locked k b op rest) t < sections_left (at_bank k b op rest) t
unfolding sections_left after_locked
locked_fewer op_deposit b op rest t = omega arith
locked_fewer op_withdraw b op rest t = omega arith
locked_fewer op_transfer b op rest t = omega arith
locked_fewer op_balance b op rest t = omega arith

refused_fewer :
    (k : OpType) (b : ℕ) (op : Operation) (rest : List Operation) (t : Transaction)
    → sections_left (at_refused k op) t < sections_left (at_bank k b op rest) t
unfolding sections_left
refused_fewer op_deposit b op rest t = omega arith
refused_fewer op_withdraw b op rest t = omega arith
refused_fewer op_transfer b op rest t = omega arith
refused_fewer op_balance b op rest t = omega arith

pub call_bank-MovedOr :
    (k : OpType) (b : ℕ) (op : Operation) (rest : List Operation) (others : List ℕ) (q : BufferPool)
    (t : Thread) (g : Globals) (o : Option Bank)
    → Reserves (operands k op ++ others) q g.shared_pool
    → MovedOr others q (at_bank k b op rest) t (elim o [
      | none ↦ some (record t { place = at_refused k op }, g)
      | some bank' ↦ some (record t { place = after_locked k b op rest }, record g { bank = bank' })
    ])
unfolding MovedOr
call_bank-MovedOr k b op rest others q t g none r = record {
  reserves = unfold held_at in r;
  fewer = refused_fewer k b op rest t.tx;
}
call_bank-MovedOr k b op rest others q t g (some bank') r = record {
  reserves =
      subst (λ l. Reserves (l ++ others) q g.shared_pool) (sym (held_after_locked k b op rest)) r;
  fewer = locked_fewer k b op rest t.tx;
}
