-- ===== src/Bank/Parser/Marker.antt =====
-- The end of the list of transactions that `load_transactions` of lab_3/src/parser.c leaves.
use cmsc125_lab.Bank.Parser.{
  is_skipped, max_transactions, transaction_end, max_ops, TraceOperation, TraceTransaction,
  TransactionList, label_id, TraceLine, scan_trace, find_transaction, entry_at, take_entry,
  append_operation, add_line, add_scanned, transaction_line, transaction_lines, mark_end, zero_list,
  TraceResult, trace_missing, outside_ops, trace_loaded, load_transactions,
}
use cmsc125_lab.Base.{
  ltb, leb, if◌then◌else◌, Bool-cases, length, set, ℤ, eqb_ℤ, ℕ, zero, suc, ◌-◌, ◌≤◌, ◌<◌, ◌≡◌,
  refl, ap, ◌∙◌, inl, inr, Bool, true, false, Option, none, some, List, [], ◌∷◌, arith,
}

-- The list between two lines.
pub record InArray (s : TransactionList) : Type 0 where
  pub all_entries : length s.tx_list ≡ max_transactions
  pub room_left : s.tx_count < max_transactions

length-set :
    (ts : List TraceTransaction) (i : ℕ) (t : TraceTransaction) → length (set ts i t) ≡ length ts
length-set [] i t = refl
length-set (x ∷ ts) zero t = refl
length-set (x ∷ ts) (suc i) t = ap suc (length-set ts i t)

InArrayOr : Option TransactionList → Type 0
InArrayOr none = Unit {0}
InArrayOr (some s) = InArray s

take_entry-InArray :
    (o : Option ℕ) (l : TraceLine) (s : TransactionList)
    → InArray s
    → suc s.tx_count < max_transactions
    → InArray (take_entry o l s).1
unfolding take_entry
take_entry-InArray (some i) l s a room = a
take_entry-InArray none l s a room = record {
  all_entries = length-set s.tx_list s.tx_count _ ∙ a.all_entries;
  room_left = room;
}

append_operation-InArrayOr :
    (op : TraceOperation) (i : ℕ) (s : TransactionList)
    → InArray s
    → InArrayOr (append_operation op (i, s))
unfolding append_operation InArrayOr
append_operation-InArrayOr op i s a =
    elim (Bool-cases (leb max_ops (length (entry_at s.tx_list i).trace_ops))) [
      | inl e ↦ rw e tt
      | inr e ↦ rw e (record {
        all_entries = length-set s.tx_list i _ ∙ a.all_entries;
        room_left = a.room_left;
      })
    ]

if_none-InArrayOr :
    (c : Bool) (o : Option TransactionList) → InArrayOr o → InArrayOr (if c then none else o)
unfolding InArrayOr
if_none-InArrayOr true o h = tt
if_none-InArrayOr false o h = h

add_line-InArrayOr :
    (l : TraceLine) (s : TransactionList)
    → InArray s
    → suc s.tx_count < max_transactions
    → InArrayOr (add_line l s)
unfolding add_line
add_line-InArrayOr l s a room =
    let r = take_entry (find_transaction (label_id l.tx_label) s.tx_list) l s in
    if_none-InArrayOr _ _ (append_operation-InArrayOr _ r.0 r.1 (take_entry-InArray _ l s a room))

add_scanned-InArrayOr :
    (o : Option TraceLine) (s : TransactionList)
    → InArray s
    → suc s.tx_count < max_transactions
    → InArrayOr (add_scanned o s)
unfolding InArrayOr add_scanned
add_scanned-InArrayOr none s a room = a
add_scanned-InArrayOr (some l) s a room = add_line-InArrayOr l s a room

transaction_line-InArrayOr :
    (line : List ℕ) (s : TransactionList)
    → InArray s
    → suc s.tx_count < max_transactions
    → InArrayOr (transaction_line line s)
unfolding transaction_line InArrayOr
transaction_line-InArrayOr line s a room = elim (Bool-cases (is_skipped line)) [
  | inl e ↦ rw e a
  | inr e ↦ rw e (add_scanned-InArrayOr (scan_trace line) s a room)
]

after-InArrayOr :
    (lines : List (List ℕ)) (o : Option TransactionList)
    → ((s : TransactionList) → InArray s → InArrayOr (transaction_lines lines s))
    → InArrayOr o
    → InArrayOr (elim o [ none ↦ none | some s ↦ transaction_lines lines s ])
unfolding InArrayOr
after-InArrayOr lines none ih a = tt
after-InArrayOr lines (some s) ih a = ih s a

transaction_lines-InArrayOr :
    (lines : List (List ℕ)) (s : TransactionList)
    → InArray s
    → InArrayOr (transaction_lines lines s)
unfolding transaction_lines InArrayOr
transaction_lines-InArrayOr [] s a = a
transaction_lines-InArrayOr (line ∷ lines) s a =
    elim (Bool-cases (ltb s.tx_count (max_transactions - 1))) [
      | inl e ↦ rw e (
          after-InArrayOr lines (transaction_line line s) (transaction_lines-InArrayOr lines)
            (transaction_line-InArrayOr line s a (ground (arith, e))))
      | inr e ↦ rw e a
    ]

-- The first entry with an id comes no later than one at which it has been written.
find-set :
    (id : ℤ) (ts : List TraceTransaction) (i : ℕ) (t : TraceTransaction)
    → i < length ts
    → eqb_ℤ t.trace_id id ≡ true
    → (k : ℕ) × (find_transaction id (set ts i t) ≡ some k) × (k ≤ i)
unfolding find_transaction
find-set id [] i t h e = absurd (omega arith)
find-set id (x ∷ ts) zero t h e = (0, rw e refl, omega arith)
find-set id (x ∷ ts) (suc i) t h e =
    let (k, f, le) = find-set id ts i t (omega arith) e in
    elim (Bool-cases (eqb_ℤ x.trace_id id)) [
      | inl c ↦ (0, rw c refl, omega arith)
      | inr c ↦ (suc k, rw (c, f) refl, omega arith)
    ]

-- What `load_transactions` promises: the loops of `main`, which run to the first entry with the end
-- marker, find it within the array.
pub HasMarker : TraceResult → Type 0
HasMarker trace_missing = Unit {0}
HasMarker outside_ops = Unit {0}
HasMarker (trace_loaded ts) =
    (length ts ≡ max_transactions)
    × ((k : ℕ) × (find_transaction transaction_end ts ≡ some k) × (k < max_transactions))

marked-HasMarker :
    (o : Option TransactionList)
    → InArrayOr o
    → HasMarker (elim o [ none ↦ outside_ops | some s ↦ trace_loaded (mark_end s) ])
unfolding HasMarker mark_end InArrayOr
marked-HasMarker none a = tt
marked-HasMarker (some s) a =
    let room = a.room_left in
    let (k, f, le) =
      find-set transaction_end s.tx_list s.tx_count
        (record (entry_at s.tx_list s.tx_count) { trace_id = transaction_end })
        (rw a.all_entries room) refl in
    (length-set s.tx_list s.tx_count _ ∙ a.all_entries, (k, f, omega arith))

-- Whatever the trace holds, the list of transactions that `load_transactions` leaves has its hundred
-- entries, and one of them has the id of the end marker.
pub load_transactions-HasMarker :
    (file : Option (List (List ℕ))) → HasMarker (load_transactions file)
unfolding load_transactions zero_list
load_transactions-HasMarker none = unfold HasMarker in tt
load_transactions-HasMarker (some lines) = marked-HasMarker (transaction_lines lines zero_list) (
    transaction_lines-InArrayOr lines zero_list
      (record { all_entries = refl; room_left = omega arith }))
