-- ===== src/Sched/Compare/Totals.antt =====
-- The sums behind the averages of src/compare.c in lab_2/schedsim-2.
use cmsc125_lab.Base.{
  length, All, ℤ, pos, ◌+ℤ◌, ◌-ℤ◌, int_laws, ℕ, zero, suc, ◌+◌, ◌*◌, ◌<◌, ◌≡◌, refl, ap, ◌∙◌, ◌≢◌,
  false, Option, some, List, [], ◌∷◌, ◌++◌, map, arith,
}
use cmsc125_lab.Sched.Compare.{
  copy_process, copy_processes, sum_times, AlgorithmResult, result_of, run_one, run_mlfq,
  run_comparison,
}
use cmsc125_lab.Sched.Compare.Runs.{
  initial_state-IsReady, bursts, left-copies, length-copies, HasTimes, copies-IsFresh,
}
use cmsc125_lab.Sched.MlfqConfig.{load_mlfq_config}
use cmsc125_lab.Sched.Options.{store_of, initial_state}
use cmsc125_lab.Sched.Options.Choice.{
  IsPaired, fcfs-IsPaired, sjf-IsPaired, stcf-IsPaired, rr-IsPaired,
}
use cmsc125_lab.Sched.Process.{construct_process, Store}
use cmsc125_lab.Sched.Simulator.{total_burst}
use cmsc125_lab.Sched.Simulator.Completion.{IsComplete, simulate_scheduler-IsComplete}
use cmsc125_lab.Sched.State.{
  SchedulerState, Algorithm, fcfs, sjf, stcf, rr, mlfq, is_mlfq_scheduler,
}
use cmsc125_lab.Sched.WaitingQueue.{WaitingQueue}

reported_split : (t w b : ℤ) → w ≡ t -ℤ b → t ≡ w +ℤ b
reported_split t w b e = grind int_laws

sum_in : (s t x y : ℤ) → s +ℤ t +ℤ (x +ℤ y) ≡ s +ℤ x +ℤ (t +ℤ y)
sum_in s t x y = grind int_laws

-- Adding up one equation for each process.
sum_times-split :
    (n : ℕ) (ps qs : Store)
    → ((a : ℕ) → a < n → (ps a).turnaround_time ≡ (ps a).waiting_time +ℤ (qs a).burst_time)
    → sum_times (λ p. p.turnaround_time) n ps
      ≡ sum_times (λ p. p.waiting_time) n ps +ℤ total_burst qs n
unfolding sum_times total_burst
sum_times-split zero ps qs h = unfold ◌+ℤ◌ in refl
sum_times-split (suc n) ps qs h =
    rw (sum_times-split n ps qs (λ a lt. h a (omega arith)), h n (omega arith))
      (sum_in (sum_times (λ p. p.waiting_time) n ps) (total_burst qs n) (ps n).waiting_time
        (qs n).burst_time)

copies-burst :
    (n : ℕ) (ps : Store) (a : ℕ)
    → a < n
    → (store_of (copy_processes n ps) a).burst_time ≡ (ps a).burst_time
unfolding copy_processes copy_process construct_process store_of
copies-burst zero ps a h = absurd (omega arith)
copies-burst (suc n) ps zero h = refl
copies-burst (suc n) ps (suc a) h = copies-burst n (λ i. ps (suc i)) a (omega arith)

-- What a run reports of the processes of `base`: the waiting times and the burst times together are the
-- turnaround times together.
pub AddsUp : SchedulerState → AlgorithmResult → Type 0
AddsUp base r =
    r.total_turnaround ≡ r.total_waiting +ℤ total_burst base.processes base.num_processes

total_burst-cong :
    (n : ℕ) (ps qs : Store)
    → ((a : ℕ) → a < n → (ps a).burst_time ≡ (qs a).burst_time)
    → total_burst ps n ≡ total_burst qs n
unfolding total_burst
total_burst-cong zero ps qs h = refl
total_burst-cong (suc n) ps qs h =
    rw (total_burst-cong n ps qs (λ a lt. h a (omega arith)), h n (omega arith)) refl

complete-AddsUp :
    (base s t : SchedulerState)
    → s.processes ≡ store_of (copy_processes base.num_processes base.processes)
    → s.num_processes ≡ base.num_processes
    → IsComplete s t
    → AddsUp base (result_of t)
unfolding AddsUp result_of
complete-AddsUp base s t ps num c = rw (c.same_count ∙ num) (
    sum_times-split base.num_processes t.processes s.processes (λ a lt.
      let r = c.reported a (rw num lt) in
      reported_split (t.processes a).turnaround_time (t.processes a).waiting_time
        (s.processes a).burst_time
        (r.waiting ∙ ap (λ b. (t.processes a).turnaround_time -ℤ b) r.same_job.same_burst))
    ∙ ap (λ b. sum_times (λ p. p.waiting_time) base.num_processes t.processes +ℤ b)
        (total_burst-cong base.num_processes s.processes base.processes (λ a lt.
          ap (λ f. (f a).burst_time) ps ∙ copies-burst base.num_processes base.processes a lt)))

-- A run that ends, with what it reports.
pub record Compared (alg : Algorithm) (w : WaitingQueue) (quantum : ℤ) (fuel : ℕ)
    (base : SchedulerState) : Type 0 where
  pub result : AlgorithmResult
  pub run_ends : run_one alg w quantum fuel base ≡ some result
  pub adds_up : AddsUp base result

run_one-Compared :
    (alg : Algorithm) (w : WaitingQueue) (quantum : ℤ) (fuel : ℕ) (base : SchedulerState)
    → alg ≢ mlfq
    → IsPaired alg w quantum
    → ((a : ℕ) → HasTimes (base.processes a))
    → 2 * bursts base.num_processes base.processes + 3 * base.num_processes < fuel
    → Compared alg w quantum fuel base
unfolding run_one initial_state
run_one-Compared alg w quantum fuel base other paired times h =
    let copies = copy_processes base.num_processes base.processes in
    let counted = length-copies base.num_processes base.processes in
    let (t, e, c) =
      simulate_scheduler-IsComplete fuel (initial_state copies w quantum)
        (initial_state-IsReady alg w quantum copies other paired
          (copies-IsFresh base.num_processes base.processes times))
        (rw (counted, left-copies base.num_processes base.processes) h) in
    record {
      result = result_of t;
      run_ends = rw (e, run_one) refl;
      adds_up = complete-AddsUp base (initial_state copies w quantum) t refl counted c;
    }

pub is_mlfq-false : (alg : Algorithm) → is_mlfq_scheduler alg ≡ false → alg ≢ mlfq
is_mlfq-false alg e h = let f = ap is_mlfq_scheduler h in ground (arith, e, f)

-- For processes whose times are not negative, and fuel for more than three rounds for each process and
-- two for each unit of burst time: the runs of FCFS, SJF, STCF and round robin in `run_comparison` all
-- end, whatever the file of MLFQ levels holds, and in each of them the turnaround times add up to the
-- waiting times and the burst times of the workload.
pub run_comparison-AddsUp :
    (fuel : ℕ) (lines : Option (List (List ℕ))) (base : SchedulerState)
    → ((a : ℕ) → HasTimes (base.processes a))
    → 2 * bursts base.num_processes base.processes + 3 * base.num_processes < fuel
    → (rs : List AlgorithmResult) × (last : Option AlgorithmResult) × (run_comparison fuel lines
          base
        ≡ map some rs ++ last ∷ [])
      × (length rs ≡ 4)
      × All (AddsUp base) rs
unfolding run_comparison
run_comparison-AddsUp fuel lines base times h =
    let a = run_one-Compared fcfs _ _ fuel base (is_mlfq-false fcfs refl) fcfs-IsPaired times h in
    let b = run_one-Compared sjf _ _ fuel base (is_mlfq-false sjf refl) sjf-IsPaired times h in
    let c = run_one-Compared stcf _ _ fuel base (is_mlfq-false stcf refl) stcf-IsPaired times h in
    let d =
      run_one-Compared rr _ _ fuel base (is_mlfq-false rr refl) (rr-IsPaired (pos 10) (omega arith))
        times h in
    (
      a.result ∷ b.result ∷ c.result ∷ d.result ∷ [],
      run_mlfq (load_mlfq_config lines) fuel base,
      rw (a.run_ends, b.run_ends, c.run_ends, d.run_ends) refl,
      omega arith,
      (a.adds_up, (b.adds_up, (c.adds_up, (d.adds_up, tt)))),
    )
