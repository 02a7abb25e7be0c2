-- ===== src/Bank/Threads/Approach.antt =====
-- lab_3/src/transaction.c, the case OP_TRANSFER: the turns that bring a thread to its second load, and the
-- same turns among other threads.
use cmsc125_lab.Bank.Accounts.{first_id}
use cmsc125_lab.Bank.BufferPool.{BufferPool, occupy, load_account}
use cmsc125_lab.Bank.Threads.{
  Place, starting, at_beginning, at_loop, at_first, at_second, Thread, create_thread, first_operand,
  after_first, load_slot, move_at, System, move_thread, Turn, clock_turn, thread_turn, tick_clock,
  take_turn, take_turns,
}
use cmsc125_lab.Bank.Transaction.{OpType, op_transfer, Operation, tx_running, Transaction, Globals}
use cmsc125_lab.Base.{
  ◌==◌, pos, ltb_ℤ, ℕ, suc, ◌<◌, ◌≡◌, refl, ◌∙◌, false, Option, none, some, List, [], ◌∷◌, arith,
}

-- A transaction that is due and begins with a transfer.
pub record BeginsWithTransfer (now : ℕ) (t : Transaction) : Type 0 where
  pub is_due : ltb_ℤ (pos now) t.start_tick ≡ false
  pub first_op : Operation
  pub other_ops : List Operation
  pub begins : t.ops ≡ first_op ∷ other_ops
  pub is_transfer : first_op.op_type ≡ op_transfer

unfoldable pub loaded_first : ℕ → Operation → List Operation → Transaction → Thread
loaded_first now op rest t = record {
  tx = record t { actual_start = now; status = tx_running };
  place = at_second now op rest;
}

unfoldable pub with_first : Operation → Globals → Globals
with_first op g = record g {
  shared_pool = occupy (first_id op.account op.target_account) g.shared_pool;
}

head_turn :
    (us : List Turn) (t t' : Thread) (ts : List Thread) (g g' : Globals)
    → move_at t.place t g ≡ some (t', g')
    → take_turns (thread_turn 0 ∷ us) (record { globals = g; threads = t ∷ ts })
      ≡ take_turns us (record { globals = g'; threads = t' ∷ ts })
unfolding take_turns take_turn move_thread
head_turn us t t' ts g g' e = rw (e, move_thread, take_turn, take_turns) refl

load_account-loads :
    (i : ℕ) (p : BufferPool) → 0 < p.empty_slots → load_account i p ≡ some (occupy i p)
unfolding load_account
load_account-loads i p h = let free : (p.empty_slots == 0) ≡ false = ground arith in rw free refl

load_slot-loads :
    (i : ℕ) (next : Place) (t : Thread) (g : Globals)
    → 0 < g.shared_pool.empty_slots
    → load_slot i next t g
      ≡ some (record t { place = next }, record g { shared_pool = occupy i g.shared_pool })
unfolding load_slot
load_slot-loads i next t g h = rw (load_account-loads i g.shared_pool h, load_slot) refl

start_moves :
    (t : Transaction) (g : Globals)
    → ltb_ℤ (pos g.global_tick) t.start_tick ≡ false
    → move_at starting (create_thread t) g ≡ some (record { tx = t; place = at_beginning }, g)
unfolding move_at create_thread
start_moves t g due = rw due refl

begin_moves :
    (t : Transaction) (g : Globals) (op : Operation) (rest : List Operation)
    → t.ops ≡ op ∷ rest
    → move_at at_beginning (record { tx = t; place = at_beginning }) g
      ≡ some (
        record {
          tx = record t { actual_start = g.global_tick; status = tx_running };
          place = at_loop (op ∷ rest);
        },
        g,
      )
unfolding move_at
begin_moves t g op rest e = rw e refl

first_moves :
    (k : OpType) (op : Operation) (b : ℕ) (rest : List Operation) (t : Thread) (g : Globals)
    → k ≡ op_transfer
    → 0 < g.shared_pool.empty_slots
    → load_slot (first_operand k op) (after_first k b op rest) t g
      ≡ some (record t { place = at_second b op rest }, with_first op g)
unfolding first_operand after_first with_first
first_moves k op b rest t g e room =
    rw e (load_slot-loads (first_id op.account op.target_account) (at_second b op rest) t g room)

pub first_four : List Turn → List Turn
first_four us = thread_turn 0 ∷ thread_turn 0 ∷ thread_turn 0 ∷ thread_turn 0 ∷ us

-- Four sections bring a transaction that begins with a transfer to its second load.
pub four_turns :
    (us : List Turn) (t : Transaction) (ts : List Thread) (g : Globals)
    (w : BeginsWithTransfer g.global_tick t)
    → 0 < g.shared_pool.empty_slots
    → take_turns (first_four us) (record { globals = g; threads = create_thread t ∷ ts })
      ≡ take_turns us (record {
        globals = with_first w.first_op g;
        threads = loaded_first g.global_tick w.first_op w.other_ops t ∷ ts;
      })
unfolding move_at create_thread loaded_first first_four
four_turns us t ts g w room =
    let begun : Transaction = record t { actual_start = g.global_tick; status = tx_running } in
    let looping : Thread = record { tx = begun; place = at_loop (w.first_op ∷ w.other_ops) } in
    let loading : Thread = record {
      tx = begun;
      place = at_first g.global_tick w.first_op w.other_ops;
    } in
    let beginning : Thread = record { tx = t; place = at_beginning } in
    head_turn (thread_turn 0 ∷ thread_turn 0 ∷ thread_turn 0 ∷ us) (create_thread t) beginning ts g
      g (start_moves t g w.is_due)
    ∙ head_turn (thread_turn 0 ∷ thread_turn 0 ∷ us) beginning looping ts g g
        (begin_moves t g w.first_op w.other_ops w.begins)
    ∙ head_turn (thread_turn 0 ∷ us) looping loading ts g g refl
    ∙ head_turn us loading (loaded_first g.global_tick w.first_op w.other_ops t) ts g
        (with_first w.first_op g)
        (first_moves w.first_op.op_type w.first_op g.global_tick w.other_ops loading g w.is_transfer
          room)

-- The same schedule for the threads after a new first one.
pub shift : List Turn → List Turn
shift [] = []
shift (clock_turn ∷ us) = clock_turn ∷ shift us
shift (thread_turn i ∷ us) = thread_turn (suc i) ∷ shift us

unfoldable pub behind : Thread → System → System
behind t s = record s { threads = t ∷ s.threads }

unfoldable pub behind_option : Thread → Option System → Option System
behind_option t none = none
behind_option t (some s) = some (behind t s)

-- The induction step after a thread's turn, whose hypothesis is `ih`.
shifted_after :
    (i : ℕ) (us : List Turn) (t : Thread) (s : System) (o : Option (List Thread × Globals))
    → move_thread i s.threads s.globals ≡ o
    → ((s' : System) → take_turns (shift us) (behind t s') ≡ behind_option t (take_turns us s'))
    → take_turns (shift (thread_turn i ∷ us)) (behind t s)
      ≡ behind_option t (take_turns (thread_turn i ∷ us) s)
unfolding behind_option behind shift take_turns take_turn move_thread
shifted_after i us t s none e ih = rw (e, move_thread, take_turn, take_turns) refl
shifted_after i us t s (some (ts, g)) e ih =
    rw (e, move_thread, take_turn, take_turns) (ih (record { globals = g; threads = ts }))

pub shifted_turns :
    (us : List Turn) (t : Thread) (s : System)
    → take_turns (shift us) (behind t s) ≡ behind_option t (take_turns us s)
unfolding take_turns take_turn move_thread shift behind_option behind tick_clock
shifted_turns [] t s = refl
shifted_turns (clock_turn ∷ us) t s =
    shifted_turns us t (record s { globals = tick_clock s.globals })
shifted_turns (thread_turn i ∷ us) t s =
    shifted_after i us t s (move_thread i s.threads s.globals) refl (λ s'. shifted_turns us t s')
