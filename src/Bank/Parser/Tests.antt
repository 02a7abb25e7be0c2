-- ===== src/Bank/Parser/Tests.antt =====
-- A file of accounts, a trace, and examples of the theorems on the parser of lab_3.
use cmsc125_lab.Bank.Accounts.{Bank, get_balance}
use cmsc125_lab.Bank.Parser.{
  is_skipped, TransactionList, get_op_type, atoi, label_id, TraceLine, operation_of, entry_at,
  add_line, zero_list, load_transactions,
}
use cmsc125_lab.Bank.Parser.Accounts.{
  scan_balance, load_accounts, last_given, or_kept, load_accounts-last,
}
use cmsc125_lab.Bank.Parser.Lines.{GoesTo, add_line-id_zero}
use cmsc125_lab.Bank.Parser.Marker.{HasMarker, load_transactions-HasMarker}
use cmsc125_lab.Base.{pos, negsuc, ℕ, ◌≤◌, ◌≡◌, refl, Option, none, some, List, [], ◌∷◌, arith}
use cmsc125_lab.Scan.{scan_int, to_int}

abbrev no_money : Bank
no_money = record {
  accounts = λ i. record { account_id = pos 0; balance_centavos = pos 0 };
  num_accounts = 100;
  reserve_balance_centavos = pos 0;
}

-- The lines `3 500` and `3 900` of a file of accounts.
abbrev account_file_lines : List (List ℕ)
account_file_lines =
    (b'3' ∷ b' ' ∷ b'5' ∷ b'0' ∷ b'0' ∷ 10 ∷ [])
    ∷ (b'#' ∷ 10 ∷ [])
    ∷ (b'3' ∷ b' ' ∷ b'9' ∷ b'0' ∷ b'0' ∷ 10 ∷ [])
    ∷ []

load_accounts-last_example :
    (b : Bank) × (load_accounts (some account_file_lines) no_money ≡ some b)
    × (get_balance b 3 ≡ or_kept (last_given 3 account_file_lines) (get_balance no_money 3))
load_accounts-last_example = load_accounts-last account_file_lines no_money 3 (omega arith)

last_balance_test : or_kept (last_given 3 account_file_lines) (get_balance no_money 3) ≡ pos 900
unfolding last_given or_kept is_skipped scan_balance scan_int to_int
last_balance_test = refl

-- The line `T0 1 BALANCE 3`.
abbrev zero_line : TraceLine
zero_line = record {
  tx_label = b'T' ∷ b'0' ∷ [];
  tick = pos 1;
  op_str = b'B' ∷ [];
  acc_id = pos 3;
  others = [];
}

abbrev trace_text : List (List ℕ)
trace_text =
    (b'T' ∷ b'1' ∷ b' ' ∷ b'0' ∷ b' ' ∷ b'D' ∷ b'E' ∷ b'P' ∷ b'O' ∷ b'S' ∷ b'I' ∷ b'T' ∷ b' ' ∷ b'3'
      ∷ b' ' ∷ b'5' ∷ 10 ∷ [])
    ∷ []

load_transactions-HasMarker_example : HasMarker (load_transactions (some trace_text))
load_transactions-HasMarker_example = load_transactions-HasMarker (some trace_text)

abbrev or_zero_list : Option TransactionList → TransactionList
or_zero_list none = zero_list
or_zero_list (some s) = s

abbrev with_zero : TransactionList
with_zero = or_zero_list (add_line zero_line zero_list)

zero_line-added : add_line zero_line zero_list ≡ some with_zero
unfolding add_line zero_list scan_int
zero_line-added = refl

add_line-id_zero_example :
    (k : ℕ) × (k ≤ zero_list.tx_count)
    × ((entry_at zero_list.tx_list k).trace_id ≡ pos 0)
    × GoesTo k (operation_of (get_op_type zero_line.op_str) zero_line) zero_list with_zero
unfolding zero_list label_id atoi scan_int
add_line-id_zero_example =
    add_line-id_zero zero_line zero_list with_zero refl (omega arith) refl zero_line-added

-- A balance that no int holds: 3000000000 is kept as -1294967296.
narrowed_balance_test : to_int (pos 3000000000) ≡ negsuc 1294967295
unfolding to_int
narrowed_balance_test = refl
