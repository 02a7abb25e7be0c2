-- ===== src/Bank/Accounts/Interleaving.antt =====
-- The bank under several threads: the critical sections of lab_3/src/bank.c in any order. Between the
-- two sections of a deposit or a withdrawal, the reserve is still due its share.
use cmsc125_lab.Bank.Accounts.{
  max_accounts, Bank, add_to_balance, take_from_balance, add_to_reserve, take_from_reserve,
  withdraw_locked, transfer, calculate_total_balance,
}
use cmsc125_lab.Bank.Accounts.Conservation.{
  add_to_balance-total, take_from_balance-total, add_to_reserve-total, take_from_reserve-total,
  KeepsTotal, transfer-total,
}
use cmsc125_lab.Base.{
  if◌then◌else◌, ℤ, pos, ◌+ℤ◌, ◌-ℤ◌, int_laws, ℕ, ◌<◌, ◌≡◌, refl, sym, ap, ◌∙◌, subst, Bool, true,
  false, Option, none, some, List, [], ◌∷◌, ◌++◌,
}

-- `atomic_fetch_add` or `atomic_fetch_sub` of an amount, not yet done.
pub data Due : Type 0 where
  to_add to_take : ℤ → Due

pub record Shared : Type 0 where
  pub books : Bank
  pub dues : List Due

unfoldable pub settle_due : Due → Bank → Bank
settle_due (to_add d) b = add_to_reserve d b
settle_due (to_take d) b = take_from_reserve d b

-- One critical section of one thread.
pub data Step : Shared → Shared → Type 0 where
  credits :
      (i : ℕ) (d : ℤ) (w : Shared)
      → i < max_accounts
      → Step w (record { books = add_to_balance i d w.books; dues = to_take d ∷ w.dues })
  debits :
      (i : ℕ) (d : ℤ) (w : Shared) (b : Bank)
      → i < max_accounts
      → withdraw_locked i d w.books ≡ some b
      → Step w (record { books = b; dues = to_add d ∷ w.dues })
  moves :
      (i j : ℕ) (d : ℤ) (w : Shared) (b : Bank)
      → i < max_accounts
      → j < max_accounts
      → transfer i j d w.books ≡ some b
      → Step w (record { books = b; dues = w.dues })
  settles :
      (b : Bank) (xs : List Due) (u : Due) (ys : List Due)
      → Step
          (record { books = b; dues = xs ++ u ∷ ys })
          (record { books = settle_due u b; dues = xs ++ ys })

pub data Steps : Shared → Shared → Type 0 where
  done : (w : Shared) → Steps w w
  then_step : (u v w : Shared) → Step u v → Steps v w → Steps u w

-- What the reserve is still due.
pub due_amount : Due → ℤ
due_amount (to_add d) = d
due_amount (to_take d) = pos 0 -ℤ d

pub sum_dues : List Due → ℤ
sum_dues [] = pos 0
sum_dues (u ∷ us) = due_amount u +ℤ sum_dues us

pub balance_sheet : Shared → ℤ
balance_sheet w = calculate_total_balance w.books +ℤ sum_dues w.dues

settle_due-total :
    (u : Due) (b : Bank)
    → calculate_total_balance (settle_due u b) ≡ calculate_total_balance b +ℤ due_amount u
unfolding settle_due due_amount
settle_due-total (to_add d) b = add_to_reserve-total d b
settle_due-total (to_take d) b = take_from_reserve-total d b

move_in : (t u r : ℤ) → t +ℤ u +ℤ r ≡ t +ℤ (u +ℤ r)
move_in t u r = grind int_laws

past_first : (x u r : ℤ) → x +ℤ (u +ℤ r) ≡ u +ℤ (x +ℤ r)
past_first x u r = grind int_laws

sum_dues-split :
    (xs : List Due) (u : Due) (ys : List Due)
    → sum_dues (xs ++ u ∷ ys) ≡ due_amount u +ℤ sum_dues (xs ++ ys)
unfolding sum_dues
sum_dues-split [] u ys = refl
sum_dues-split (x ∷ xs) u ys =
    ap (λ t. due_amount x +ℤ t) (sum_dues-split xs u ys)
    ∙ past_first (due_amount x) (due_amount u) (sum_dues (xs ++ ys))

credited : (t d r : ℤ) → t +ℤ d +ℤ (pos 0 -ℤ d +ℤ r) ≡ t +ℤ r
credited t d r = grind int_laws

debited : (t d r : ℤ) → t +ℤ (pos 0 -ℤ d) +ℤ (d +ℤ r) ≡ t +ℤ r
debited t d r = grind int_laws

DebitTo : ℤ → Bank → Option Bank → Type 0
DebitTo d b none = Unit {0}
DebitTo d b (some c) = calculate_total_balance c ≡ calculate_total_balance b +ℤ (pos 0 -ℤ d)

guarded-DebitTo :
    (test : Bool) (d : ℤ) (b c : Bank)
    → calculate_total_balance c ≡ calculate_total_balance b +ℤ (pos 0 -ℤ d)
    → DebitTo d b (if test then none else some c)
unfolding DebitTo
guarded-DebitTo true d b c h = tt
guarded-DebitTo false d b c h = h

withdraw_locked-DebitTo :
    (i : ℕ) (d : ℤ) (b : Bank) → i < max_accounts → DebitTo d b (withdraw_locked i d b)
unfolding withdraw_locked
withdraw_locked-DebitTo i d b h =
    guarded-DebitTo _ d b (take_from_balance i d b) (take_from_balance-total i d b h)

Step-balance_sheet : (u v : Shared) → Step u v → balance_sheet v ≡ balance_sheet u
unfolding balance_sheet sum_dues due_amount DebitTo
Step-balance_sheet u v (credits i d w h) =
    ap (λ t. t +ℤ (pos 0 -ℤ d +ℤ sum_dues w.dues)) (add_to_balance-total i d w.books h)
    ∙ credited (calculate_total_balance w.books) d (sum_dues w.dues)
Step-balance_sheet u v (debits i d w b h e) =
    ap (λ t. t +ℤ (d +ℤ sum_dues w.dues))
      (subst (DebitTo d w.books) e (withdraw_locked-DebitTo i d w.books h))
    ∙ debited (calculate_total_balance w.books) d (sum_dues w.dues)
Step-balance_sheet u v (moves i j d w b hi hj e) =
    ap (λ t. t +ℤ sum_dues w.dues)
      (subst (KeepsTotal w.books) e (transfer-total i j d w.books hi hj))
Step-balance_sheet u v (settles b xs d ys) =
    ap (λ t. t +ℤ sum_dues (xs ++ ys)) (settle_due-total d b)
    ∙ move_in (calculate_total_balance b) (due_amount d) (sum_dues (xs ++ ys))
    ∙ ap (λ t. calculate_total_balance b +ℤ t) (sym (sum_dues-split xs d ys))

Steps-balance_sheet : (u w : Shared) → Steps u w → balance_sheet w ≡ balance_sheet u
Steps-balance_sheet u w (done v) = refl
Steps-balance_sheet u w (then_step a v b s rest) =
    Steps-balance_sheet v b rest ∙ Step-balance_sheet a v s

nothing_due : (t : ℤ) → t +ℤ pos 0 ≡ t
nothing_due t = grind int_laws

-- Whatever the order in which the critical sections of all threads run: when none is left between
-- its two sections, the conservation check of `main` compares equal totals.
pub Steps-total :
    (b c : Bank)
    → Steps (record { books = b; dues = [] }) (record { books = c; dues = [] })
    → calculate_total_balance c ≡ calculate_total_balance b
unfolding balance_sheet sum_dues
Steps-total b c run =
    sym (nothing_due (calculate_total_balance c))
    ∙ Steps-balance_sheet _ _ run
    ∙ nothing_due (calculate_total_balance b)
