-- ===== src/Bank/Accounts/Conservation.antt =====
-- No operation of the bank makes or loses money.
use cmsc125_lab.Bank.Accounts.{
  max_accounts, Account, Bank, get_balance, add_to_balance, take_from_balance, add_to_reserve,
  take_from_reserve, deposit, withdraw_locked, withdraw, transfer, sum_balances,
  calculate_total_balance,
}
use cmsc125_lab.Base.{
  ◌==◌, if◌then◌else◌, Bool-cases, update, ℤ, pos, ◌+ℤ◌, ◌-ℤ◌, ltb_ℤ, int_laws, ℕ, zero, suc, ◌≤◌,
  ◌<◌, ◌≡◌, refl, sym, ap, ◌∙◌, inl, inr, Bool, true, false, Option, none, some, arith,
}

+ℤ_right_comm : (a b c : ℤ) → a +ℤ b +ℤ c ≡ a +ℤ c +ℤ b
+ℤ_right_comm a b c = grind int_laws

+ℤ_assoc : (a b c : ℤ) → a +ℤ b +ℤ c ≡ a +ℤ (b +ℤ c)
+ℤ_assoc a b c = grind int_laws

same_index : (i n : ℕ) → (i == n) ≡ true → i ≡ n
same_index i n e = ground arith

sum_balances-outside :
    (n i : ℕ) (f : ℕ → Account) (a : Account)
    → n ≤ i
    → sum_balances n (update f i a) ≡ sum_balances n f
unfolding sum_balances
sum_balances-outside zero i f a h = refl
sum_balances-outside (suc n) i f a h =
    let away : (i == n) ≡ false = ground arith in
    rw away (rw (sum_balances-outside n i f a (omega arith)) refl)

-- Changing the balance of one account by `d` changes the sum by `d`.
sum_balances-update :
    (n i : ℕ) (f : ℕ → Account) (a : Account) (d : ℤ)
    → i < n
    → a.balance_centavos ≡ (f i).balance_centavos +ℤ d
    → sum_balances n (update f i a) ≡ sum_balances n f +ℤ d
unfolding sum_balances
sum_balances-update zero i f a d h e = absurd (omega arith)
sum_balances-update (suc n) i f a d h e = elim (Bool-cases (i == n)) [
  | inl same ↦ rw same (
      rw (sum_balances-outside n i f a (ground arith)) (
        rw e (
          rw (ap (λ k. (f k).balance_centavos) (same_index i n same))
            (sym (+ℤ_assoc (sum_balances n f) (f n).balance_centavos d)))))
  | inr other ↦ rw other (
      rw (sum_balances-update n i f a d (ground arith) e)
        (+ℤ_right_comm (sum_balances n f) d (f n).balance_centavos))
]

minus_as_sum : (a d : ℤ) → a -ℤ d ≡ a +ℤ (pos 0 -ℤ d)
minus_as_sum a d = grind int_laws

pub add_to_balance-total :
    (i : ℕ) (d : ℤ) (b : Bank)
    → i < max_accounts
    → calculate_total_balance (add_to_balance i d b) ≡ calculate_total_balance b +ℤ d
unfolding add_to_balance calculate_total_balance
add_to_balance-total i d b h =
    rw
      (sum_balances-update max_accounts i b.accounts
        (record (b.accounts i) { balance_centavos = (b.accounts i).balance_centavos +ℤ d }) d h
        refl)
      (sym (+ℤ_assoc b.reserve_balance_centavos (sum_balances max_accounts b.accounts) d))

pub take_from_balance-total :
    (i : ℕ) (d : ℤ) (b : Bank)
    → i < max_accounts
    → calculate_total_balance (take_from_balance i d b) ≡ calculate_total_balance b +ℤ (pos 0 -ℤ d)
unfolding take_from_balance calculate_total_balance
take_from_balance-total i d b h =
    rw
      (sum_balances-update max_accounts i b.accounts
        (record (b.accounts i) { balance_centavos = (b.accounts i).balance_centavos -ℤ d })
        (pos 0 -ℤ d) h (minus_as_sum (b.accounts i).balance_centavos d))
      (sym
        (+ℤ_assoc b.reserve_balance_centavos (sum_balances max_accounts b.accounts) (pos 0 -ℤ d)))

pub add_to_reserve-total :
    (d : ℤ) (b : Bank)
    → calculate_total_balance (add_to_reserve d b) ≡ calculate_total_balance b +ℤ d
unfolding add_to_reserve calculate_total_balance
add_to_reserve-total d b =
    +ℤ_right_comm b.reserve_balance_centavos d (sum_balances max_accounts b.accounts)

pub take_from_reserve-total :
    (d : ℤ) (b : Bank)
    → calculate_total_balance (take_from_reserve d b) ≡ calculate_total_balance b +ℤ (pos 0 -ℤ d)
unfolding take_from_reserve calculate_total_balance
take_from_reserve-total d b =
    rw (minus_as_sum b.reserve_balance_centavos d)
      (+ℤ_right_comm b.reserve_balance_centavos (pos 0 -ℤ d) (sum_balances max_accounts b.accounts))

cancel : (a d : ℤ) → a +ℤ d +ℤ (pos 0 -ℤ d) ≡ a
cancel a d = grind int_laws

cancel_back : (a d : ℤ) → a +ℤ (pos 0 -ℤ d) +ℤ d ≡ a
cancel_back a d = grind int_laws

pub deposit-total :
    (i : ℕ) (d : ℤ) (b : Bank)
    → i < max_accounts
    → calculate_total_balance (deposit i d b) ≡ calculate_total_balance b
unfolding deposit
deposit-total i d b h =
    take_from_reserve-total d (add_to_balance i d b)
    ∙ ap (λ t. t +ℤ (pos 0 -ℤ d)) (add_to_balance-total i d b h)
    ∙ cancel (calculate_total_balance b) d

-- A refused operation leaves nothing to compare; one that succeeds keeps the total.
abbrev pub KeepsTotal : Bank → Option Bank → Type 0
KeepsTotal b none = Unit {0}
KeepsTotal b (some b') = calculate_total_balance b' ≡ calculate_total_balance b

guarded-KeepsTotal :
    (c : Bool) (b : Bank) (o : Option Bank) → KeepsTotal b o → KeepsTotal b (if c then none else o)
guarded-KeepsTotal false b o h = h
guarded-KeepsTotal true b o h = tt

unguarded-KeepsTotal :
    (c : Bool) (b : Bank) (o : Option Bank)
    → KeepsTotal b o
    → KeepsTotal b (if c then some b else o)
unguarded-KeepsTotal false b o h = h
unguarded-KeepsTotal true b o h = refl

settled-KeepsTotal :
    (c : Bool) (d : ℤ) (b b' : Bank)
    → calculate_total_balance (add_to_reserve d b') ≡ calculate_total_balance b
    → KeepsTotal b
        (elim (if c then none else some b') [ none ↦ none | some x ↦ some (add_to_reserve d x) ])
settled-KeepsTotal false d b b' h = h
settled-KeepsTotal true d b b' h = tt

pub withdraw-total : (i : ℕ) (d : ℤ) (b : Bank) → i < max_accounts → KeepsTotal b (withdraw i d b)
unfolding withdraw withdraw_locked
withdraw-total i d b h =
    settled-KeepsTotal (ltb_ℤ (get_balance b i) d) d b (take_from_balance i d b) (
      add_to_reserve-total d (take_from_balance i d b)
      ∙ ap (λ t. t +ℤ d) (take_from_balance-total i d b h)
      ∙ cancel_back (calculate_total_balance b) d)

pub transfer-total :
    (i j : ℕ) (d : ℤ) (b : Bank)
    → i < max_accounts
    → j < max_accounts
    → KeepsTotal b (transfer i j d b)
unfolding transfer
transfer-total i j d b hi hj = unguarded-KeepsTotal (i == j) b _ (
    guarded-KeepsTotal (ltb_ℤ (get_balance b i) d) b
      (some (add_to_balance j d (take_from_balance i d b)))
      (add_to_balance-total j d (take_from_balance i d b) hj
        ∙ ap (λ t. t +ℤ d) (take_from_balance-total i d b hi)
        ∙ cancel_back (calculate_total_balance b) d))
