-- ===== src/Bank/Accounts.antt =====
-- lab_3/src/bank.c with the types of lab_3/include/bankdb.h, and `calculate_total_balance` of
-- lab_3/src/main.c. An account id is an index of `bank.accounts`. An `int` or `long long` is an
-- integer: the program relies on no amount overflowing. What runs between a lock and its release is
-- one step, so `deposit` and `withdraw` are two steps each, of which the second is atomic, too.
pub mod Conservation
pub mod Interleaving
use cmsc125_lab.Base.{
  ltb, ◌==◌, if◌then◌else◌, update, ℤ, pos, ◌+ℤ◌, ◌-ℤ◌, ltb_ℤ, ℕ, zero, suc, Option, none, some,
}

-- MAX_ACCOUNTS.
abbrev pub max_accounts : ℕ
max_accounts = 100

pub record Account : Type 0 where
  pub account_id : ℤ
  pub balance_centavos : ℤ

pub record Bank : Type 0 where
  pub accounts : ℕ → Account
  pub num_accounts : ℕ
  pub reserve_balance_centavos : ℤ

unfoldable pub init_bank : ℕ → Bank → Bank
init_bank n b = record b { num_accounts = n; reserve_balance_centavos = pos 0 }

unfoldable pub get_balance : Bank → ℕ → ℤ
get_balance b i = (b.accounts i).balance_centavos

-- `acc->balance_centavos += amount`.
unfoldable pub add_to_balance : ℕ → ℤ → Bank → Bank
add_to_balance i amount b =
    let account = b.accounts i in
    record b {
      accounts =
          update b.accounts i
            (record account { balance_centavos = account.balance_centavos +ℤ amount });
    }

-- `acc->balance_centavos -= amount`.
unfoldable pub take_from_balance : ℕ → ℤ → Bank → Bank
take_from_balance i amount b =
    let account = b.accounts i in
    record b {
      accounts =
          update b.accounts i
            (record account { balance_centavos = account.balance_centavos -ℤ amount });
    }

-- `atomic_fetch_add` and, of the opposite amount, `atomic_fetch_sub`.
unfoldable pub add_to_reserve : ℤ → Bank → Bank
add_to_reserve amount b = record b {
  reserve_balance_centavos = b.reserve_balance_centavos +ℤ amount;
}

unfoldable pub take_from_reserve : ℤ → Bank → Bank
take_from_reserve amount b = record b {
  reserve_balance_centavos = b.reserve_balance_centavos -ℤ amount;
}

unfoldable pub deposit : ℕ → ℤ → Bank → Bank
unfolding add_to_balance take_from_reserve
deposit i amount b = take_from_reserve amount (add_to_balance i amount b)

-- What `withdraw` does under the lock; none for a balance that is too low.
unfoldable pub withdraw_locked : ℕ → ℤ → Bank → Option Bank
unfolding get_balance take_from_balance
withdraw_locked i amount b =
    if ltb_ℤ (get_balance b i) amount then none else some (take_from_balance i amount b)

-- none where the source returns false.
unfoldable pub withdraw : ℕ → ℤ → Bank → Option Bank
unfolding withdraw_locked add_to_reserve
withdraw i amount b = elim (withdraw_locked i amount b) [
  | none ↦ none
  | some b' ↦ some (add_to_reserve amount b')
]

-- none where the source returns false. The order in which the two locks are taken is in `first_id`
-- and `second_id`.
unfoldable pub transfer : ℕ → ℕ → ℤ → Bank → Option Bank
unfolding get_balance take_from_balance add_to_balance
transfer from to amount b =
    if from == to
    then some b
    else if ltb_ℤ (get_balance b from) amount
    then none
    else some (add_to_balance to amount (take_from_balance from amount b))

unfoldable pub first_id : ℕ → ℕ → ℕ
first_id from to = if ltb from to then from else to

unfoldable pub second_id : ℕ → ℕ → ℕ
second_id from to = if ltb from to then to else from

-- The loop of `calculate_total_balance` over the first `n` accounts.
unfoldable pub sum_balances : ℕ → (ℕ → Account) → ℤ
sum_balances zero cells = pos 0
sum_balances (suc n) cells = sum_balances n cells +ℤ (cells n).balance_centavos

unfoldable pub calculate_total_balance : Bank → ℤ
unfolding sum_balances
calculate_total_balance b = b.reserve_balance_centavos +ℤ sum_balances max_accounts b.accounts
