-- ===== src/Bank/Parser/Lines.antt =====
-- Which entry a line of a trace reaches, in `load_transactions` of lab_3/src/parser.c.
use cmsc125_lab.Bank.Parser.{
  max_ops, TraceOperation, TraceTransaction, TransactionList, get_op_type, label_id, TraceLine,
  operation_of, find_transaction, entry_at, take_entry, append_operation, add_line,
}
use cmsc125_lab.Base.{
  leb, if◌then◌else◌, Bool-cases, length, set, ℤ, pos, eqb_ℤ, ℕ, zero, suc, ◌≤◌, ◌<◌, ◌≡◌, refl,
  ◌∙◌, subst, inl, inr, Bool, true, false, Option, none, some, List, [], ◌∷◌, ◌++◌, arith,
}

eqb-to-eq : (m n : ℤ) → eqb_ℤ m n ≡ true → m ≡ n
eqb-to-eq m n h = ground (arith, h)

-- The search finds an entry with the id, no later than one that has it.
find-entry :
    (id : ℤ) (ts : List TraceTransaction) (i : ℕ)
    → i < length ts
    → eqb_ℤ (entry_at ts i).trace_id id ≡ true
    → (k : ℕ) × (find_transaction id ts ≡ some k) × (k ≤ i) × ((entry_at ts k).trace_id ≡ id)
unfolding find_transaction
find-entry id [] i h e = absurd (omega arith)
find-entry id (t ∷ ts) zero h e = (0, rw e refl, omega arith, eqb-to-eq t.trace_id id e)
find-entry id (t ∷ ts) (suc i) h e =
    let (k, f, le, same) = find-entry id ts i (omega arith) e in
    elim (Bool-cases (eqb_ℤ t.trace_id id)) [
      | inl c ↦ (0, rw c refl, omega arith, eqb-to-eq t.trace_id id c)
      | inr c ↦ (suc k, rw (c, f) refl, omega arith, same)
    ]

-- The entry with an operation more.
abbrev pub with_operation : TraceOperation → TraceTransaction → TraceTransaction
with_operation op t = record t { trace_ops = t.trace_ops ++ op ∷ [] }

-- After the line, the entry `k` has one operation more; nothing else has changed.
abbrev pub GoesTo : ℕ → TraceOperation → TransactionList → TransactionList → Type 0
GoesTo k op s s' =
    (s'.tx_list ≡ set s.tx_list k (with_operation op (entry_at s.tx_list k)))
    × (s'.tx_count ≡ s.tx_count)

GoesToOr : ℕ → TraceOperation → TransactionList → Option TransactionList → Type 0
GoesToOr k op s none = Unit {0}
GoesToOr k op s (some s') = GoesTo k op s s'

append_operation-GoesToOr :
    (op : TraceOperation) (k : ℕ) (s : TransactionList)
    → GoesToOr k op s (append_operation op (k, s))
unfolding append_operation GoesToOr
append_operation-GoesToOr op k s =
    elim (Bool-cases (leb max_ops (length (entry_at s.tx_list k).trace_ops))) [
      | inl e ↦ rw e tt
      | inr e ↦ rw e (refl, refl)
    ]

if_none-GoesToOr :
    (k : ℕ) (op : TraceOperation) (s : TransactionList) (c : Bool) (o : Option TransactionList)
    → GoesToOr k op s o
    → GoesToOr k op s (if c then none else o)
unfolding GoesToOr
if_none-GoesToOr k op s true o h = tt
if_none-GoesToOr k op s false o h = h

found-GoesToOr :
    (op : TraceOperation) (l : TraceLine) (s : TransactionList) (o : Option ℕ) (k : ℕ)
    → o ≡ some k
    → GoesToOr k op s (append_operation op (take_entry o l s))
unfolding take_entry
found-GoesToOr op l s o k e = rw e (append_operation-GoesToOr op k s)

-- A line for the transaction number 0 that is added, with no write outside an array, makes no
-- transaction: as long as the next entry is unused, and so has the id 0, the operation of the line
-- goes to the end of the operations of an entry with the id 0 that is there, which is the next one
-- or one before it; no other entry changes, nor does the number of transactions.
pub add_line-id_zero :
    (l : TraceLine) (s s' : TransactionList)
    → label_id l.tx_label ≡ pos 0
    → s.tx_count < length s.tx_list
    → (entry_at s.tx_list s.tx_count).trace_id ≡ pos 0
    → add_line l s ≡ some s'
    → (k : ℕ) × (k ≤ s.tx_count)
      × ((entry_at s.tx_list k).trace_id ≡ pos 0)
      × GoesTo k (operation_of (get_op_type l.op_str) l) s s'
unfolding add_line GoesToOr
add_line-id_zero l s s' z room unused e =
    let (k, f, le, zero_id) =
      find-entry (label_id l.tx_label) s.tx_list s.tx_count room (rw (unused, z) refl) in
    let op = operation_of (get_op_type l.op_str) l in
    (
      k,
      le,
      zero_id ∙ z,
      subst (GoesToOr k op s) e (if_none-GoesToOr k op s _ _ (found-GoesToOr op l s _ k f)),
    )
