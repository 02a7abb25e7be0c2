-- ===== src/Bank/Threads/Sections.antt =====
-- lab_3/src/transaction.c: what one section of a thread does to the money and to the transaction.
use cmsc125_lab.Bank.Accounts.{Bank, calculate_total_balance}
use cmsc125_lab.Bank.BufferPool.{BufferPool, load_account}
use cmsc125_lab.Bank.Threads.{
  Place, starting, at_beginning, at_loop, at_first, at_second, at_bank, at_reserve, at_clock,
  until_tick, at_unload, at_last_unload, at_refused, at_last_refused, at_abort, ended, Thread,
  after_first, after_unload, after_refused, load_slot, unload_slot, locked_part, after_locked,
  call_bank, move_at,
}
use cmsc125_lab.Bank.Threads.Dues.{
  due_at, BalancedOr, locked_part-BalancedOr, due_after_locked, reserve_part-total,
  no_due-after_first, no_due-after_unload, no_due-after_refused,
}
use cmsc125_lab.Bank.Transaction.{
  OpType, op_deposit, op_withdraw, op_transfer, op_balance, Operation, TxStatus, tx_committed,
  tx_aborted, Transaction, Globals,
}
use cmsc125_lab.Bank.Transaction.Outcomes.{InBank, AllInBank}
use cmsc125_lab.Base.{
  if◌then◌else◌, ℤ, pos, ◌+ℤ◌, ℕ, ◌≡◌, refl, ap, ◌∙◌, ◌⊎◌, inl, inr, Bool, true, false, Option,
  none, some, List, [], ◌∷◌,
}

-- How a transaction ends.
pub IsDecided : TxStatus → Type 0
IsDecided status = (status ≡ tx_committed) ⊎ (status ≡ tx_aborted)

-- The operations that a thread has yet to run are on accounts of the bank, and a thread that has
-- returned has committed or aborted.
unfoldable pub IsSound : Place → Transaction → Type 0
unfolding AllInBank IsDecided
IsSound starting t = AllInBank t.ops
IsSound at_beginning t = AllInBank t.ops
IsSound (at_loop rest) t = AllInBank rest
IsSound (at_first b op rest) t = InBank op × AllInBank rest
IsSound (at_second b op rest) t = InBank op × AllInBank rest
IsSound (at_bank k b op rest) t = InBank op × AllInBank rest
IsSound (at_reserve k b op rest) t = AllInBank rest
IsSound (at_clock k b op rest) t = AllInBank rest
IsSound (until_tick n k op rest) t = AllInBank rest
IsSound (at_unload k op rest) t = AllInBank rest
IsSound (at_last_unload op rest) t = AllInBank rest
IsSound (at_refused k op) t = Unit {0}
IsSound (at_last_refused op) t = Unit {0}
IsSound at_abort t = Unit {0}
IsSound ended t = IsDecided t.status

unfoldable pub IsSoundThread : Thread → Type 0
IsSoundThread t = IsSound t.place t.tx

-- What a section of a thread keeps that had `due` to add to the reserve.
unfoldable pub SavesOr : ℤ → Globals → Option (Thread × Globals) → Type 0
SavesOr due g none = Unit {0}
SavesOr due g (some (t, g')) =
    (calculate_total_balance g'.bank +ℤ due_at t.place ≡ calculate_total_balance g.bank +ℤ due)
    × IsSoundThread t

guarded-SavesOr :
    (c : Bool) (due : ℤ) (g : Globals) (t : Thread)
    → due_at t.place ≡ due
    → IsSoundThread t
    → SavesOr due g (if c then none else some (t, g))
unfolding SavesOr
guarded-SavesOr true due g t e i = tt
guarded-SavesOr false due g t e i = (ap (λ d. calculate_total_balance g.bank +ℤ d) e, i)

load_slot-SavesOr :
    (i : ℕ) (due : ℤ) (next : Place) (t : Thread) (g : Globals)
    → due_at next ≡ due
    → IsSound next t.tx
    → SavesOr due g (load_slot i next t g)
unfolding load_slot
load_slot-SavesOr i due next t g e s = by_pool (load_account i g.shared_pool)
  where
    by_pool :
        (o : Option BufferPool)
        → SavesOr due g (elim o [
          | none ↦ none
          | some p ↦ some (record t { place = next }, record g { shared_pool = p })
        ])
    by_pool none = unfold SavesOr in tt
    by_pool (some p) =
        unfold SavesOr IsSoundThread in (ap (λ d. calculate_total_balance g.bank +ℤ d) e, s)

after_locked-IsSound :
    (k : OpType) (b : ℕ) (op : Operation) (rest : List Operation) (t : Transaction)
    → AllInBank rest
    → IsSound (after_locked k b op rest) t
unfolding after_locked IsSound
after_locked-IsSound op_deposit b op rest t i = i
after_locked-IsSound op_withdraw b op rest t i = i
after_locked-IsSound op_transfer b op rest t i = i
after_locked-IsSound op_balance b op rest t i = i

call_bank-SavesOr :
    (k : OpType) (b : ℕ) (op : Operation) (rest : List Operation) (t : Thread) (g : Globals)
    (o : Option Bank)
    → AllInBank rest
    → BalancedOr k op g.bank o
    → SavesOr (pos 0) g (elim o [
      | none ↦ some (record t { place = at_refused k op }, g)
      | some bank' ↦ some (record t { place = after_locked k b op rest }, record g { bank = bank' })
    ])
unfolding SavesOr IsSoundThread
call_bank-SavesOr k b op rest t g none i h = (unfold due_at in refl, unfold IsSound in tt)
call_bank-SavesOr k b op rest t g (some bank') i h = (
  ap (λ d. calculate_total_balance bank' +ℤ d) (due_after_locked k b op rest) ∙ h,
  after_locked-IsSound k b op rest t.tx i,
)

after_first-IsSound :
    (k : OpType) (b : ℕ) (op : Operation) (rest : List Operation) (t : Transaction)
    → InBank op × AllInBank rest
    → IsSound (after_first k b op rest) t
unfolding after_first IsSound
after_first-IsSound op_deposit b op rest t i = i
after_first-IsSound op_withdraw b op rest t i = i
after_first-IsSound op_transfer b op rest t i = i
after_first-IsSound op_balance b op rest t i = i

after_unload-IsSound :
    (k : OpType) (op : Operation) (rest : List Operation) (t : Transaction)
    → AllInBank rest
    → IsSound (after_unload k op rest) t
unfolding after_unload IsSound
after_unload-IsSound op_deposit op rest t i = i
after_unload-IsSound op_withdraw op rest t i = i
after_unload-IsSound op_transfer op rest t i = i
after_unload-IsSound op_balance op rest t i = i

after_refused-IsSound :
    (k : OpType) (op : Operation) (t : Transaction) → IsSound (after_refused k op) t
unfolding after_refused IsSound
after_refused-IsSound op_deposit op t = tt
after_refused-IsSound op_withdraw op t = tt
after_refused-IsSound op_transfer op t = tt
after_refused-IsSound op_balance op t = tt

-- Whichever section a thread runs: what the bank gains, the thread has less to settle, and the thread
-- stays sound.
pub move_at-SavesOr :
    (p : Place) (t : Thread) (g : Globals) → IsSound p t.tx → SavesOr (due_at p) g (move_at p t g)
unfolding move_at IsSound IsDecided AllInBank call_bank unload_slot SavesOr IsSoundThread due_at
move_at-SavesOr starting t g i = guarded-SavesOr _ _ g _ refl i
move_at-SavesOr at_beginning t g i = (refl, i)
move_at-SavesOr (at_loop []) t g i = (refl, inl refl)
move_at-SavesOr (at_loop (op ∷ rest)) t g i = (refl, i)
move_at-SavesOr (at_first b op rest) t g i =
    load_slot-SavesOr _ _ _ t g (no_due-after_first op.op_type b op rest)
      (after_first-IsSound op.op_type b op rest t.tx i)
move_at-SavesOr (at_second b op rest) t g i = load_slot-SavesOr _ _ _ t g refl i
move_at-SavesOr (at_bank k b op rest) t g i =
    call_bank-SavesOr k b op rest t g (locked_part k op g.bank) i.1
      (locked_part-BalancedOr k op g.bank i.0)
move_at-SavesOr (at_reserve k b op rest) t g i = (reserve_part-total k b op rest g.bank, i)
move_at-SavesOr (at_clock k b op rest) t g i = (refl, i)
move_at-SavesOr (until_tick n k op rest) t g i = guarded-SavesOr _ _ g _ refl i
move_at-SavesOr (at_unload k op rest) t g i = (
  ap (λ d. calculate_total_balance g.bank +ℤ d) (no_due-after_unload k op rest),
  after_unload-IsSound k op rest t.tx i,
)
move_at-SavesOr (at_last_unload op rest) t g i = (refl, i)
move_at-SavesOr (at_refused k op) t g i = (
  ap (λ d. calculate_total_balance g.bank +ℤ d) (no_due-after_refused k op),
  after_refused-IsSound k op t.tx,
)
move_at-SavesOr (at_last_refused op) t g i = (refl, tt)
move_at-SavesOr at_abort t g i = (refl, inr refl)
move_at-SavesOr ended t g i = tt
