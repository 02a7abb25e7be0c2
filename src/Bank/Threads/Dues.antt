-- ===== src/Bank/Threads/Dues.antt =====
-- lab_3/src/bank.c inside the threads: what is due to the reserve between the two halves of a deposit or
-- a withdrawal.
use cmsc125_lab.Bank.Accounts.{Bank, take_from_balance, withdraw_locked, calculate_total_balance}
use cmsc125_lab.Bank.Accounts.Conservation.{
  add_to_balance-total, take_from_balance-total, add_to_reserve-total, take_from_reserve-total,
  KeepsTotal, transfer-total,
}
use cmsc125_lab.Bank.Threads.{
  Place, at_reserve, after_first, after_unload, after_refused, locked_part, reserve_part,
  after_locked,
}
use cmsc125_lab.Bank.Transaction.{
  OpType, op_deposit, op_withdraw, op_transfer, op_balance, Operation,
}
use cmsc125_lab.Bank.Transaction.Outcomes.{InBank}
use cmsc125_lab.Base.{
  if◌then◌else◌, ℤ, pos, ◌+ℤ◌, ◌-ℤ◌, int_laws, ℕ, ◌≡◌, refl, sym, ap, ◌∙◌, Bool, true, false,
  Option, none, some, List, [],
}

-- What a thread that stands between the two halves of a deposit or a withdrawal has yet to add to the
-- reserve.
unfoldable pub due_at : Place → ℤ
due_at (at_reserve op_deposit b op rest) = pos 0 -ℤ op.amount_centavos
due_at (at_reserve op_withdraw b op rest) = op.amount_centavos
due_at _ = pos 0

no_due : (t : ℤ) → t ≡ t +ℤ pos 0
no_due t = grind int_laws

credited : (t d : ℤ) → t +ℤ d +ℤ (pos 0 -ℤ d) ≡ t +ℤ pos 0
credited t d = grind int_laws

debited : (t d : ℤ) → t +ℤ (pos 0 -ℤ d) +ℤ d ≡ t +ℤ pos 0
debited t d = grind int_laws

-- What the part under the locks leaves due to the reserve.
abbrev pub BalancedOr : OpType → Operation → Bank → Option Bank → Type 0
BalancedOr k op b none = Unit {0}
BalancedOr k op b (some b') =
    calculate_total_balance b' +ℤ due_at (after_locked k 0 op [])
    ≡ calculate_total_balance b +ℤ pos 0

guarded-BalancedOr :
    (c : Bool) (k : OpType) (op : Operation) (b b' : Bank)
    → BalancedOr k op b (some b')
    → BalancedOr k op b (if c then none else some b')
guarded-BalancedOr true k op b b' h = tt
guarded-BalancedOr false k op b b' h = h

transfer-BalancedOr :
    (op : Operation) (b : Bank) (o : Option Bank) → KeepsTotal b o → BalancedOr op_transfer op b o
unfolding due_at after_locked
transfer-BalancedOr op b none h = tt
transfer-BalancedOr op b (some b') h = ap (λ t. t +ℤ pos 0) h

pub locked_part-BalancedOr :
    (k : OpType) (op : Operation) (b : Bank) → InBank op → BalancedOr k op b (locked_part k op b)
unfolding locked_part InBank withdraw_locked due_at after_locked
locked_part-BalancedOr op_deposit op b i =
    ap (λ t. t +ℤ (pos 0 -ℤ op.amount_centavos))
      (add_to_balance-total op.account op.amount_centavos b i.0)
    ∙ credited (calculate_total_balance b) op.amount_centavos
locked_part-BalancedOr op_withdraw op b i =
    guarded-BalancedOr _ op_withdraw op b (take_from_balance op.account op.amount_centavos b) (
      ap (λ t. t +ℤ op.amount_centavos)
        (take_from_balance-total op.account op.amount_centavos b i.0)
      ∙ debited (calculate_total_balance b) op.amount_centavos)
locked_part-BalancedOr op_transfer op b i =
    transfer-BalancedOr op b _
      (transfer-total op.account op.target_account op.amount_centavos b i.0 i.1)
locked_part-BalancedOr op_balance op b i = refl

pub due_after_locked :
    (k : OpType) (b : ℕ) (op : Operation) (rest : List Operation)
    → due_at (after_locked k b op rest) ≡ due_at (after_locked k 0 op [])
unfolding due_at after_locked
due_after_locked op_deposit b op rest = refl
due_after_locked op_withdraw b op rest = refl
due_after_locked op_transfer b op rest = refl
due_after_locked op_balance b op rest = refl

-- The reserve receives exactly what it was due.
pub reserve_part-total :
    (k : OpType) (b : ℕ) (op : Operation) (rest : List Operation) (bank : Bank)
    → calculate_total_balance (reserve_part k op bank) +ℤ pos 0
      ≡ calculate_total_balance bank +ℤ due_at (at_reserve k b op rest)
unfolding reserve_part due_at
reserve_part-total op_deposit b op rest bank =
    sym (no_due _) ∙ take_from_reserve-total op.amount_centavos bank
reserve_part-total op_withdraw b op rest bank =
    sym (no_due _) ∙ add_to_reserve-total op.amount_centavos bank
reserve_part-total op_transfer b op rest bank = refl
reserve_part-total op_balance b op rest bank = refl

pub no_due-after_first :
    (k : OpType) (b : ℕ) (op : Operation) (rest : List Operation)
    → due_at (after_first k b op rest) ≡ pos 0
unfolding due_at after_first
no_due-after_first op_deposit b op rest = refl
no_due-after_first op_withdraw b op rest = refl
no_due-after_first op_transfer b op rest = refl
no_due-after_first op_balance b op rest = refl

pub no_due-after_unload :
    (k : OpType) (op : Operation) (rest : List Operation) → due_at (after_unload k op rest) ≡ pos 0
unfolding due_at after_unload
no_due-after_unload op_deposit op rest = refl
no_due-after_unload op_withdraw op rest = refl
no_due-after_unload op_transfer op rest = refl
no_due-after_unload op_balance op rest = refl

pub no_due-after_refused : (k : OpType) (op : Operation) → due_at (after_refused k op) ≡ pos 0
unfolding due_at after_refused
no_due-after_refused op_deposit op = refl
no_due-after_refused op_withdraw op = refl
no_due-after_refused op_transfer op = refl
no_due-after_refused op_balance op = refl
