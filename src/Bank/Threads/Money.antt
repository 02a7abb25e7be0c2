-- ===== src/Bank/Threads/Money.antt =====
-- The conservation check of lab_3/src/main.c, for threads in any order.
use cmsc125_lab.Bank.Accounts.{calculate_total_balance}
use cmsc125_lab.Bank.Threads.{
  Place, ended, Thread, create_thread, move_at, System, move_thread, Turn, clock_turn, thread_turn,
  tick_clock, take_turn, take_turns, create_threads,
}
use cmsc125_lab.Bank.Threads.Dues.{due_at}
use cmsc125_lab.Bank.Threads.Enabled.{HasEnded}
use cmsc125_lab.Bank.Threads.Sections.{IsDecided, IsSound, IsSoundThread, SavesOr, move_at-SavesOr}
use cmsc125_lab.Bank.Transaction.{Transaction, Globals}
use cmsc125_lab.Bank.Transaction.Outcomes.{AllInBank}
use cmsc125_lab.Base.{
  All, ℤ, pos, ◌+ℤ◌, int_laws, ℕ, zero, suc, ◌≡◌, refl, sym, ap, ◌∙◌, subst, Option, none, some,
  List, [], ◌∷◌, map,
}

-- What all threads have yet to add to the reserve.
unfoldable pub due_by_all : List Thread → ℤ
due_by_all [] = pos 0
due_by_all (t ∷ ts) = due_at t.place +ℤ due_by_all ts

AllSaveOr : ℤ → Globals → Option (List Thread × Globals) → Type 0
AllSaveOr due g none = Unit {0}
AllSaveOr due g (some (ts, g')) =
    (calculate_total_balance g'.bank +ℤ due_by_all ts ≡ calculate_total_balance g.bank +ℤ due)
    × All IsSoundThread ts

add_right : (a b c : ℤ) → a +ℤ (b +ℤ c) ≡ a +ℤ b +ℤ c
add_right a b c = grind int_laws

add_middle : (a b c : ℤ) → a +ℤ (b +ℤ c) ≡ a +ℤ c +ℤ b
add_middle a b c = grind int_laws

head-AllSaveOr :
    (due : ℤ) (g : Globals) (ts : List Thread) (o : Option (Thread × Globals))
    → All IsSoundThread ts
    → SavesOr due g o
    → AllSaveOr
        (due +ℤ due_by_all ts)
        g
        (elim o [ none ↦ none | some (t', g') ↦ some (t' ∷ ts, g') ])
unfolding AllSaveOr SavesOr due_by_all
head-AllSaveOr due g ts none all s = tt
head-AllSaveOr due g ts (some (t', g')) all (e, i) = (
  add_right (calculate_total_balance g'.bank) (due_at t'.place) (due_by_all ts)
      ∙ ap (λ n. n +ℤ due_by_all ts) e
      ∙ sym (add_right (calculate_total_balance g.bank) due (due_by_all ts)),
  (i, all),
)

tail-AllSaveOr :
    (due : ℤ) (g : Globals) (t : Thread) (o : Option (List Thread × Globals))
    → IsSoundThread t
    → AllSaveOr due g o
    → AllSaveOr
        (due_at t.place +ℤ due)
        g
        (elim o [ none ↦ none | some (ts', g') ↦ some (t ∷ ts', g') ])
unfolding AllSaveOr due_by_all
tail-AllSaveOr due g t none i s = tt
tail-AllSaveOr due g t (some (ts', g')) i (e, all) = (
  add_middle (calculate_total_balance g'.bank) (due_at t.place) (due_by_all ts')
      ∙ ap (λ n. n +ℤ due_at t.place) e
      ∙ sym (add_middle (calculate_total_balance g.bank) (due_at t.place) due),
  (i, all),
)

move_thread-AllSaveOr :
    (i : ℕ) (ts : List Thread) (g : Globals)
    → All IsSoundThread ts
    → AllSaveOr (due_by_all ts) g (move_thread i ts g)
unfolding move_thread due_by_all
move_thread-AllSaveOr i [] g all = unfold AllSaveOr in tt
move_thread-AllSaveOr zero (t ∷ ts) g (i, all) =
    head-AllSaveOr (due_at t.place) g ts (move_at t.place t g) all
      (move_at-SavesOr t.place t g (unfold IsSoundThread in i))
move_thread-AllSaveOr (suc n) (t ∷ ts) g (i, all) =
    tail-AllSaveOr (due_by_all ts) g t (move_thread n ts g) i (move_thread-AllSaveOr n ts g all)

-- The balances and the reserve, with what the reserve is still due.
balance_of : System → ℤ
balance_of s = calculate_total_balance s.globals.bank +ℤ due_by_all s.threads

TotalOr : ℤ → Option System → Type 0
TotalOr n none = Unit {0}
TotalOr n (some s) = (balance_of s ≡ n) × All IsSoundThread s.threads

turn-TotalOr :
    (s : System) (o : Option (List Thread × Globals))
    → AllSaveOr (due_by_all s.threads) s.globals o
    → TotalOr
        (balance_of s)
        (elim o [ none ↦ none | some (ts, g') ↦ some (record { globals = g'; threads = ts }) ])
unfolding AllSaveOr TotalOr balance_of
turn-TotalOr s none h = tt
turn-TotalOr s (some (ts, g')) h = h

-- The induction step after a turn, whose hypothesis is `ih`.
then-TotalOr :
    (n : ℤ) (us : List Turn) (o : Option System)
    → ((s : System) → All IsSoundThread s.threads → TotalOr (balance_of s) (take_turns us s))
    → TotalOr n o
    → TotalOr n (elim o [ none ↦ none | some s ↦ take_turns us s ])
unfolding TotalOr
then-TotalOr n us none ih t = tt
then-TotalOr n us (some s) ih (e, all) = subst (λ m. TotalOr m (take_turns us s)) e (ih s all)

tick-balance_of :
    (s : System) → balance_of (record s { globals = tick_clock s.globals }) ≡ balance_of s
unfolding balance_of tick_clock
tick-balance_of s = refl

take_turns-TotalOr :
    (us : List Turn) (s : System)
    → All IsSoundThread s.threads
    → TotalOr (balance_of s) (take_turns us s)
unfolding take_turns take_turn tick_clock
take_turns-TotalOr [] s all = unfold TotalOr in (refl, all)
take_turns-TotalOr (clock_turn ∷ us) s all =
    subst (λ n. TotalOr n (take_turns us (record s { globals = tick_clock s.globals })))
      (tick-balance_of s) (take_turns-TotalOr us (record s { globals = tick_clock s.globals }) all)
take_turns-TotalOr (thread_turn i ∷ us) s all = then-TotalOr _ us _ (take_turns-TotalOr us) (
    turn-TotalOr s (move_thread i s.threads s.globals)
      (move_thread-AllSaveOr i s.threads s.globals all))

no_due_created : (txs : List Transaction) → due_by_all (map create_thread txs) ≡ pos 0
unfolding due_by_all due_at create_thread ◌+ℤ◌
no_due_created [] = refl
no_due_created (t ∷ txs) = ap (λ d. pos 0 +ℤ d) (no_due_created txs) ∙ refl

no_due : (t : ℤ) → t +ℤ pos 0 ≡ t
no_due t = grind int_laws

created-balance_of :
    (txs : List Transaction) (g : Globals)
    → balance_of (create_threads txs g) ≡ calculate_total_balance g.bank
unfolding balance_of create_threads
created-balance_of txs g =
    ap (λ d. calculate_total_balance g.bank +ℤ d) (no_due_created txs) ∙ no_due _

created-IsSoundThread :
    (txs : List Transaction)
    → All (λ t. AllInBank t.ops) txs
    → All IsSoundThread (map create_thread txs)
unfolding IsSoundThread IsSound create_thread
created-IsSoundThread [] all = tt
created-IsSoundThread (t ∷ txs) (i, all) = (i, created-IsSoundThread txs all)

sound-IsDecided : (t : Thread) → IsSoundThread t → t.place ≡ ended → IsDecided t.tx.status
unfolding IsSoundThread IsSound
sound-IsDecided t i e = subst (λ p. IsSound p t.tx) e i

All-IsDecided :
    (ts : List Thread)
    → All IsSoundThread ts
    → All (λ t. t.place ≡ ended → IsDecided t.tx.status) ts
All-IsDecided [] all = tt
All-IsDecided (t ∷ ts) (i, all) = (sound-IsDecided t i, All-IsDecided ts all)

-- When the operations of all transactions are on accounts of the bank: after any schedule of the
-- threads' sections, finished or not, the balances, the reserve and what the threads between the two
-- halves of a deposit or a withdrawal have yet to add to the reserve make together what the balances
-- and the reserve were at the start; and every thread that has returned has committed or aborted.
pub take_turns-total :
    (us : List Turn) (txs : List Transaction) (g : Globals) (s : System)
    → All (λ t. AllInBank t.ops) txs
    → take_turns us (create_threads txs g) ≡ some s
    → (calculate_total_balance s.globals.bank +ℤ due_by_all s.threads
        ≡ calculate_total_balance g.bank)
      × All (λ t. t.place ≡ ended → IsDecided t.tx.status) s.threads
unfolding TotalOr balance_of
take_turns-total us txs g s all e =
    let (same, sound) = subst (TotalOr (balance_of (create_threads txs g))) e (
      take_turns-TotalOr us (create_threads txs g)
        (unfold create_threads in created-IsSoundThread txs all)) in
    (same ∙ created-balance_of txs g, All-IsDecided s.threads sound)

ended_due : (p : Place) → p ≡ ended → due_at p ≡ pos 0
unfolding due_at
ended_due p e = ap due_at e

All-ended_due : (ts : List Thread) → All HasEnded ts → due_by_all ts ≡ pos 0
unfolding due_by_all HasEnded ◌+ℤ◌
All-ended_due [] all = refl
All-ended_due (t ∷ ts) (e, all) =
    ap (λ d. d +ℤ due_by_all ts) (ended_due t.place e) ∙ ap (λ d. pos 0 +ℤ d) (All-ended_due ts all)

-- When the operations of all transactions are on accounts of the bank and a schedule has brought every
-- thread to its end, the conservation check of `main` compares equal totals.
pub take_turns-same_total :
    (us : List Turn) (txs : List Transaction) (g : Globals) (s : System)
    → All (λ t. AllInBank t.ops) txs
    → take_turns us (create_threads txs g) ≡ some s
    → All HasEnded s.threads
    → calculate_total_balance s.globals.bank ≡ calculate_total_balance g.bank
take_turns-same_total us txs g s all e over =
    sym (no_due _)
    ∙ ap (λ d. calculate_total_balance s.globals.bank +ℤ d) (sym (All-ended_due s.threads over))
    ∙ (take_turns-total us txs g s all e).0
