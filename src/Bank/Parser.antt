-- ===== src/Bank/Parser.antt =====
-- lab_3/src/parser.c: the files of accounts and of transactions. A file is the list of the lines that
-- `fgets` returns, none if it does not open. The ids of a trace are as they stand in it, of any sign,
-- so its operations and transactions have types of their own here; `tsx` is the global array of
-- MAX_TRANSACTIONS entries, all zero before the reading.
pub mod Accounts
pub mod Marker
pub mod Lines
mod Tests
use cmsc125_lab.Bank.Transaction.{OpType, op_deposit, op_withdraw, op_transfer, op_balance}
use cmsc125_lab.Base.{
  ltb, leb, ◌==◌, if◌then◌else◌, ◌>>=◌, length, get_elem?, set, replicate, ℤ, pos, negsuc, eqb_ℤ, ℕ,
  suc, ◌-◌, Bool, true, false, ◌&&◌, ◌||◌, Option, none, some, List, [], ◌∷◌, ◌++◌,
}
use cmsc125_lab.Scan.{scan_int, scan_word, to_long, to_int}

-- `line[0] == '#' || line[0] == '\n'`.
unfoldable pub is_skipped : List ℕ → Bool
is_skipped [] = false
is_skipped (c ∷ cs) = (c == b'#') || (c == 10)

-- MAX_TRANSACTIONS, TRANSACTION_END and the lengths of `ops`, `tx_label` and `op_str`.
abbrev pub max_transactions : ℕ
max_transactions = 100

abbrev pub transaction_end : ℤ
transaction_end = negsuc 0

abbrev pub max_ops : ℕ
max_ops = 256

abbrev pub label_room : ℕ
label_room = 10

abbrev pub op_room : ℕ
op_room = 20

pub record TraceOperation : Type 0 where
  pub trace_type : OpType
  pub trace_account : ℤ
  pub trace_amount : ℤ
  pub trace_target : ℤ

pub record TraceTransaction : Type 0 where
  pub trace_id : ℤ
  pub trace_ops : List TraceOperation
  pub trace_start : ℤ

-- An entry of the global array, before it is used.
abbrev pub zero_transaction : TraceTransaction
zero_transaction = record { trace_id = pos 0; trace_ops = []; trace_start = pos 0 }

pub record TransactionList : Type 0 where
  pub tx_list : List TraceTransaction
  pub tx_count : ℕ

unfoldable pub same_word : List ℕ → List ℕ → Bool
same_word [] [] = true
same_word [] (d ∷ ds) = false
same_word (c ∷ cs) [] = false
same_word (c ∷ cs) (d ∷ ds) = (c == d) && same_word cs ds

abbrev pub deposit_word : List ℕ
deposit_word = b'D' ∷ b'E' ∷ b'P' ∷ b'O' ∷ b'S' ∷ b'I' ∷ b'T' ∷ []

abbrev pub withdraw_word : List ℕ
withdraw_word = b'W' ∷ b'I' ∷ b'T' ∷ b'H' ∷ b'D' ∷ b'R' ∷ b'A' ∷ b'W' ∷ []

abbrev pub transfer_word : List ℕ
transfer_word = b'T' ∷ b'R' ∷ b'A' ∷ b'N' ∷ b'S' ∷ b'F' ∷ b'E' ∷ b'R' ∷ []

unfoldable pub get_op_type : List ℕ → OpType
unfolding same_word
get_op_type s =
    if same_word s deposit_word
    then op_deposit
    else if same_word s withdraw_word
    then op_withdraw
    else if same_word s transfer_word
    then op_transfer
    else op_balance

-- `atoi`: `strtol`, converted to int.
unfoldable pub atoi : List ℕ → ℤ
unfolding to_int to_long
atoi s = elim (scan_int s) [ none ↦ pos 0 | some (n, rest) ↦ to_int (to_long n) ]

-- `atoi(tx_label + 1)`.
unfoldable pub label_id : List ℕ → ℤ
unfolding atoi
label_id [] = pos 0
label_id (c ∷ cs) = atoi cs

-- The four conversions "%s %d %s %d", with what follows them on the line.
pub record TraceLine : Type 0 where
  pub tx_label : List ℕ
  pub tick : ℤ
  pub op_str : List ℕ
  pub acc_id : ℤ
  pub others : List ℕ

unfoldable pub scan_trace : List ℕ → Option TraceLine
scan_trace line = do
  label ← scan_word line
  start ← scan_int label.1
  op ← scan_word start.1
  acc ← scan_int op.1
  some
      (record { tx_label = label.0; tick = start.0; op_str = op.0; acc_id = acc.0; others = acc.1 })

-- The numbers that the second `sscanf` reads, which leaves a zero where it finds none.
abbrev pub or_zero : Option (ℤ × List ℕ) → ℤ
or_zero none = pos 0
or_zero (some (n, rest)) = n

abbrev pub amount_after : Option (ℤ × List ℕ) → ℤ
amount_after none = pos 0
amount_after (some (n, rest)) = or_zero (scan_int rest)

unfoldable pub operation_of : OpType → TraceLine → TraceOperation
operation_of op_transfer l = record {
  trace_type = op_transfer;
  trace_account = l.acc_id;
  trace_target = or_zero (scan_int l.others);
  trace_amount = amount_after (scan_int l.others);
}
operation_of op_balance l = record {
  trace_type = op_balance;
  trace_account = l.acc_id;
  trace_target = pos 0;
  trace_amount = pos 0;
}
operation_of k l = record {
  trace_type = k;
  trace_account = l.acc_id;
  trace_target = pos 0;
  trace_amount = or_zero (scan_int l.others);
}

abbrev pub one_later : Option ℕ → Option ℕ
one_later none = none
one_later (some i) = some (suc i)

-- The loop that looks for the index of the first entry with the id.
unfoldable pub find_transaction : ℤ → List TraceTransaction → Option ℕ
find_transaction id [] = none
find_transaction id (t ∷ ts) =
    let later = one_later (find_transaction id ts) in if eqb_ℤ t.trace_id id then some 0 else later

-- A new entry: its operations are those that it holds already.
unfoldable pub new_transaction : TraceLine → TraceTransaction → TraceTransaction
unfolding label_id
new_transaction l t = record t { trace_id = label_id l.tx_label; trace_start = l.tick }

abbrev pub entry_at : List TraceTransaction → ℕ → TraceTransaction
entry_at ts i = elim (get_elem? ts i) [ none ↦ zero_transaction | some t ↦ t ]

-- The entry for the line: the one found, or the next one.
unfoldable pub take_entry : Option ℕ → TraceLine → TransactionList → ℕ × TransactionList
unfolding new_transaction
take_entry (some i) l s = (i, s)
take_entry none l s = (
  s.tx_count,
  record {
    tx_list = set s.tx_list s.tx_count (new_transaction l (entry_at s.tx_list s.tx_count));
    tx_count = suc s.tx_count;
  },
)

-- The operation is written after those of the entry; none for a write after the array `ops`.
unfoldable pub append_operation : TraceOperation → ℕ × TransactionList → Option TransactionList
append_operation op (i, s) =
    let t = entry_at s.tx_list i in
    if leb max_ops (length t.trace_ops)
    then none
    else some
        (record s { tx_list = set s.tx_list i (record t { trace_ops = t.trace_ops ++ op ∷ [] }) })

-- A line with its four conversions; none also for a word that its array has no room for.
unfoldable pub add_line : TraceLine → TransactionList → Option TransactionList
unfolding take_entry append_operation operation_of find_transaction get_op_type label_id
add_line l s =
    if leb label_room (length l.tx_label) || leb op_room (length l.op_str)
    then none
    else append_operation (operation_of (get_op_type l.op_str) l)
        (take_entry (find_transaction (label_id l.tx_label) s.tx_list) l s)

abbrev pub add_scanned : Option TraceLine → TransactionList → Option TransactionList
unfolding add_line
add_scanned none s = some s
add_scanned (some l) s = add_line l s

unfoldable pub transaction_line : List ℕ → TransactionList → Option TransactionList
unfolding scan_trace add_line
transaction_line line s = if is_skipped line then some s else add_scanned (scan_trace line) s

-- The loop ends early when all entries but the last are taken.
unfoldable pub transaction_lines : List (List ℕ) → TransactionList → Option TransactionList
unfolding transaction_line
transaction_lines [] s = some s
transaction_lines (line ∷ lines) s =
    let rest : Option TransactionList = elim (transaction_line line s) [
      | none ↦ none
      | some s' ↦ transaction_lines lines s'
    ] in
    if ltb s.tx_count (max_transactions - 1) then rest else some s

-- `tx_list[tx_count].tx_id = TRANSACTION_END`.
unfoldable pub mark_end : TransactionList → List TraceTransaction
mark_end s =
    set s.tx_list s.tx_count (record (entry_at s.tx_list s.tx_count) { trace_id = transaction_end })

unfoldable pub zero_list : TransactionList
zero_list = record { tx_list = replicate max_transactions zero_transaction; tx_count = 0 }

-- How the reading ends.
pub data TraceResult : Type 0 where
  trace_missing outside_ops : TraceResult
  trace_loaded : List TraceTransaction → TraceResult

unfoldable pub load_transactions : Option (List (List ℕ)) → TraceResult
unfolding transaction_lines mark_end zero_list
load_transactions none = trace_missing
load_transactions (some lines) = elim (transaction_lines lines zero_list) [
  | none ↦ outside_ops
  | some s ↦ trace_loaded (mark_end s)
]
