-- ===== src/Bank/Parser/Accounts.antt =====
-- `load_accounts` of lab_3/src/parser.c. A balance is read as a long, as `strtol` reads it, and kept in
-- an int.
use cmsc125_lab.Bank.Accounts.{max_accounts, Account, Bank, get_balance}
use cmsc125_lab.Bank.Parser.{is_skipped}
use cmsc125_lab.Base.{
  ltb, ◌==◌, if◌then◌else◌, Bool-cases, ◌>>=◌, update, ℤ, pos, negsuc, eqb_ℤ, ℕ, ◌<◌, ◌≡◌, refl, ap,
  ◌∙◌, inl, inr, Bool, true, false, Option, none, some, List, [], ◌∷◌, arith,
}
use cmsc125_lab.Scan.{scan_int, to_long, to_int}
use cmsc125_lab.Scan.Narrowing.{FitsInt, to_int-fits}

unfoldable pub scan_balance : List ℕ → Option (ℤ × ℤ)
unfolding to_long
scan_balance line = do id ← scan_int line; bal ← scan_int id.1; some (id.0, to_long bal.0)

-- The two writes for a line with a valid id.
unfoldable pub write_account : ℤ → ℤ → Bank → Bank
unfolding to_int
write_account (negsuc n) bal b = b
write_account (pos i) bal b =
    if ltb i max_accounts
    then record b {
      accounts = update b.accounts i (record { account_id = pos i; balance_centavos = to_int bal });
    }
    else b

abbrev pub write_scanned : Option (ℤ × ℤ) → Bank → Bank
unfolding write_account
write_scanned none b = b
write_scanned (some (id, bal)) b = write_account id bal b

unfoldable pub account_line : List ℕ → Bank → Bank
unfolding is_skipped scan_balance write_account
account_line line b = if is_skipped line then b else write_scanned (scan_balance line) b

unfoldable pub account_lines : List (List ℕ) → Bank → Bank
unfolding account_line
account_lines [] b = b
account_lines (line ∷ lines) b = account_lines lines (account_line line b)

-- none for the result -1.
unfoldable pub load_accounts : Option (List (List ℕ)) → Bank → Option Bank
unfolding account_lines
load_accounts none b = none
load_accounts (some lines) b = some (account_lines lines b)

-- The balance that a line gives to an account: what an int keeps of its second number.
unfoldable pub balance_given : ℕ → List ℕ → Option ℤ
balance_given i line = if is_skipped line then none else elim (scan_balance line) [
  | none ↦ none
  | some (id, bal) ↦ if eqb_ℤ id (pos i) then some (to_int bal) else none
]

-- A number that an int holds is given as it stands.
balance_given-fits :
    (i : ℕ) (line : List ℕ) (bal : ℤ)
    → is_skipped line ≡ false
    → scan_balance line ≡ some (pos i, bal)
    → FitsInt bal
    → balance_given i line ≡ some bal
unfolding balance_given
balance_given-fits i line bal s e fits =
    let own : eqb_ℤ (pos i) (pos i) ≡ true = ground arith in
    rw (s, e, own) (ap some (to_int-fits bal fits))

unfoldable pub or_earlier : Option ℤ → Option ℤ → Option ℤ
or_earlier none o = o
or_earlier (some b) o = some b

-- The last line that gives a balance to the account.
unfoldable pub last_given : ℕ → List (List ℕ) → Option ℤ
unfolding balance_given or_earlier
last_given i [] = none
last_given i (line ∷ lines) = or_earlier (last_given i lines) (balance_given i line)

unfoldable pub or_kept : Option ℤ → ℤ → ℤ
or_kept none bal = bal
or_kept (some b) bal = b

written : (n i : ℕ) (f : ℕ → Account) (a : Account) → (n == i) ≡ true → update f n a i ≡ a
written n i f a e = rw e refl

untouched : (n i : ℕ) (f : ℕ → Account) (a : Account) → (n == i) ≡ false → update f n a i ≡ f i
untouched n i f a e = rw e refl

write_account-balance :
    (id bal : ℤ) (b : Bank) (i : ℕ)
    → i < max_accounts
    → get_balance (write_account id bal b) i
      ≡ or_kept (if eqb_ℤ id (pos i) then some (to_int bal) else none) (get_balance b i)
unfolding write_account get_balance or_kept
write_account-balance (pos n) bal b i h = elim (Bool-cases (n == i)) [
  | inl e ↦
      let there : ltb n max_accounts ≡ true = ground arith in
      let given : eqb_ℤ (pos n) (pos i) ≡ true = ground arith in
      rw (there, given) (ap (λ (a : Account). a.balance_centavos) (written n i b.accounts _ e))
  | inr e ↦
      let given : eqb_ℤ (pos n) (pos i) ≡ false = ground arith in
      rw given (kept (ltb n max_accounts) e)
]
  where
    kept :
        (c : Bool)
        → (n == i) ≡ false
        → get_balance
            (if c
              then record b {
                accounts =
                    update b.accounts n
                      (record { account_id = pos n; balance_centavos = to_int bal });
              }
              else b)
            i
          ≡ get_balance b i
    kept true e = ap (λ (a : Account). a.balance_centavos) (untouched n i b.accounts _ e)
    kept false e = refl
write_account-balance (negsuc n) bal b i h =
    let given : eqb_ℤ (negsuc n) (pos i) ≡ false = ground arith in rw given refl

write_scanned-balance :
    (o : Option (ℤ × ℤ)) (b : Bank) (i : ℕ)
    → i < max_accounts
    → get_balance (write_scanned o b) i
      ≡ or_kept
          (elim o [
            | none ↦ none
            | some (id, bal) ↦ if eqb_ℤ id (pos i) then some (to_int bal) else none
          ])
          (get_balance b i)
unfolding or_kept write_scanned
write_scanned-balance none b i h = refl
write_scanned-balance (some (id, bal)) b i h = write_account-balance id bal b i h

account_line-balance :
    (line : List ℕ) (b : Bank) (i : ℕ)
    → i < max_accounts
    → get_balance (account_line line b) i ≡ or_kept (balance_given i line) (get_balance b i)
unfolding account_line balance_given or_kept
account_line-balance line b i h = elim (Bool-cases (is_skipped line)) [
  | inl e ↦ rw e refl
  | inr e ↦ rw e (write_scanned-balance (scan_balance line) b i h)
]

or_kept-later :
    (later now : Option ℤ) (bal : ℤ)
    → or_kept later (or_kept now bal) ≡ or_kept (or_earlier later now) bal
unfolding or_kept or_earlier
or_kept-later none now bal = refl
or_kept-later (some b) now bal = refl

account_lines-balance :
    (lines : List (List ℕ)) (b : Bank) (i : ℕ)
    → i < max_accounts
    → get_balance (account_lines lines b) i ≡ or_kept (last_given i lines) (get_balance b i)
unfolding account_lines last_given
account_lines-balance [] b i h = unfold or_kept in refl
account_lines-balance (line ∷ lines) b i h =
    account_lines-balance lines (account_line line b) i h
    ∙ ap (or_kept (last_given i lines)) (account_line-balance line b i h)
    ∙ or_kept-later (last_given i lines) (balance_given i line) (get_balance b i)

-- After a file of accounts has been read, the balance of each account of the bank is what an int keeps
-- of the number on the last line that gives it one, and what it was before if no line does.
pub load_accounts-last :
    (lines : List (List ℕ)) (b : Bank) (i : ℕ)
    → i < max_accounts
    → (b' : Bank) × (load_accounts (some lines) b ≡ some b')
      × (get_balance b' i ≡ or_kept (last_given i lines) (get_balance b i))
unfolding load_accounts
load_accounts-last lines b i h = (account_lines lines b, refl, account_lines-balance lines b i h)
