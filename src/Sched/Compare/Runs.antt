-- ===== src/Sched/Compare/Runs.antt =====
-- Every run of src/main.c and of src/compare.c in lab_2/schedsim-2 outside MLFQ starts ready and ends.
use cmsc125_lab.Base.{
  length, All, ℤ, pos, pos_part, ◌≤ℤ◌, ℕ, zero, suc, ◌+◌, ◌≡◌, refl, ap, ◌∙◌, ◌≢◌, List, [], ◌∷◌,
  arith,
}
use cmsc125_lab.Sched.Compare.{copy_process, copy_processes}
use cmsc125_lab.Sched.Options.{store_of, initial_state}
use cmsc125_lab.Sched.Options.Choice.{IsPaired}
use cmsc125_lab.Sched.Process.{Process, construct_process, Store}
use cmsc125_lab.Sched.Simulator.Measure.{left}
use cmsc125_lab.Sched.Simulator.Start.{IsReady}
use cmsc125_lab.Sched.State.{Algorithm, mlfq}
use cmsc125_lab.Sched.WaitingQueue.{WaitingQueue}

-- A process as `construct_process` leaves it, with times that are not negative.
pub record IsFresh (p : Process) : Type 0 where
  pub arrival_nonneg : pos 0 ≤ℤ p.arrival_time
  pub burst_nonneg : pos 0 ≤ℤ p.burst_time
  pub nothing_spent : p.remaining_time ≡ p.burst_time

store_of-IsFresh : (ps : List Process) → All IsFresh ps → (a : ℕ) → IsFresh (store_of ps a)
unfolding store_of construct_process
store_of-IsFresh [] all a = record {
  arrival_nonneg = omega arith;
  burst_nonneg = omega arith;
  nothing_spent = refl;
}
store_of-IsFresh (p ∷ ps) (fresh, all) zero = fresh
store_of-IsFresh (p ∷ ps) (fresh, all) (suc a) = store_of-IsFresh ps all a

-- Fresh processes and a chosen algorithm other than MLFQ, with its queue, make a state in which the
-- simulation is ready to start.
pub initial_state-IsReady :
    (alg : Algorithm) (w : WaitingQueue) (quantum : ℤ) (ps : List Process)
    → alg ≢ mlfq
    → IsPaired alg w quantum
    → All IsFresh ps
    → IsReady alg (initial_state ps w quantum)
unfolding initial_state
initial_state-IsReady alg w quantum ps other paired all = record {
  no_mlfq = other;
  paired = paired.own_queue;
  exact = paired.exact;
  empty = paired.empty;
  idle = refl;
  quantum_pos = paired.quantum_pos;
  arrivals_later = λ a. (store_of-IsFresh ps all a).arrival_nonneg;
  bursts_nonneg = λ a. (store_of-IsFresh ps all a).burst_nonneg;
  unspent = λ a. (store_of-IsFresh ps all a).nothing_spent;
}

-- The burst times together.
unfoldable pub bursts : ℕ → Store → ℕ
bursts zero ps = 0
bursts (suc n) ps = pos_part (ps 0).burst_time + bursts n (λ i. ps (suc i))

left_shift :
    (ps : Store) (n : ℕ)
    → left ps (suc n) ≡ pos_part (ps 0).remaining_time + left (λ i. ps (suc i)) n
unfolding left
left_shift ps zero = omega arith
left_shift ps (suc n) = let rest = left_shift ps n in omega arith

pub left-copies : (n : ℕ) (ps : Store) → left (store_of (copy_processes n ps)) n ≡ bursts n ps
unfolding left copy_processes copy_process bursts store_of
left-copies zero ps = refl
left-copies (suc n) ps =
    left_shift (store_of (copy_processes (suc n) ps)) n
    ∙ ap (λ r. pos_part (ps 0).burst_time + r) (left-copies n (λ i. ps (suc i)))

pub length-copies : (n : ℕ) (ps : Store) → length (copy_processes n ps) ≡ n
unfolding copy_processes
length-copies zero ps = refl
length-copies (suc n) ps = ap suc (length-copies n (λ i. ps (suc i)))

-- Times that are not negative.
abbrev pub HasTimes : Process → Type 0
HasTimes p = (pos 0 ≤ℤ p.arrival_time) × (pos 0 ≤ℤ p.burst_time)

pub copies-IsFresh :
    (n : ℕ) (ps : Store) → ((a : ℕ) → HasTimes (ps a)) → All IsFresh (copy_processes n ps)
unfolding copy_processes copy_process construct_process
copies-IsFresh zero ps h = tt
copies-IsFresh (suc n) ps h = (
  record { arrival_nonneg = (h 0).0; burst_nonneg = (h 0).1; nothing_spent = refl },
  copies-IsFresh n (λ i. ps (suc i)) (λ a. h (suc a)),
)
