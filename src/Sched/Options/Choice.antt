-- ===== src/Sched/Options/Choice.antt =====
-- What src/main.c of lab_2/schedsim-2 has set up when it calls the simulator.
use cmsc125_lab.Base.{
  ◌==◌, Bool-cases, length, replicate, ℤ, pos, ◌<ℤ◌, leb_ℤ, ℕ, zero, suc, ◌≡◌, refl, ap, inl, inr,
  Bool, true, false, Option, none, some, List, [], arith,
}
use cmsc125_lab.Sched.Chain.{construct_chain}
use cmsc125_lab.Sched.MlfqConfig.{
  MlfqConfig, LoadResult, loaded, rejected, out_of_array, load_mlfq_config,
}
use cmsc125_lab.Sched.MlfqQueue.{construct_mlfq_process_queue, all_processes}
use cmsc125_lab.Sched.Options.{
  CommandLineArguments, algorithm_named, no_algorithm, Setup, failed, chosen, choose_rr,
  queue_of_config, queue_of_loaded, open_config, choose_mlfq, choose_for, choose_algorithm,
}
use cmsc125_lab.Sched.RrQueue.{construct_rr_process_queue}
use cmsc125_lab.Sched.Simulator.Invariant.{kind}
use cmsc125_lab.Sched.State.{Algorithm, fcfs, sjf, stcf, rr, mlfq}
use cmsc125_lab.Sched.WaitingQueue.{WaitingQueue, fcfs_queue, sjf_queue, stcf_queue, rr_queue}
use cmsc125_lab.Sched.WaitingQueue.Contents.{contents, IsExact}

-- An algorithm with its own kind of queue, which is empty, and for RR a positive quantum.
pub record IsPaired (alg : Algorithm) (w : WaitingQueue) (quantum : ℤ) : Type 0 where
  pub own_queue : kind w ≡ alg
  pub exact : IsExact w
  pub empty : contents w ≡ []
  pub quantum_pos : alg ≡ rr → pos 0 <ℤ quantum

abbrev eq_rr : Algorithm → Bool
eq_rr rr = true
eq_rr _ = false

unfoldable pub PairedSetup : Setup → Type 0
PairedSetup (failed f) = Unit {0}
PairedSetup (chosen alg w quantum) = IsPaired alg w quantum

not_rr : (alg : Algorithm) (q : ℤ) → eq_rr alg ≡ false → alg ≡ rr → pos 0 <ℤ q
not_rr alg q e h = absurd (let f = ap eq_rr h in ground (arith, e, f))

pub fcfs-IsPaired : IsPaired fcfs (fcfs_queue construct_chain) (pos 0)
unfolding construct_chain
fcfs-IsPaired = record {
  own_queue = refl;
  exact = record { size_exact = refl; levels_ok = tt };
  empty = refl;
  quantum_pos = not_rr fcfs (pos 0) refl;
}

pub sjf-IsPaired : IsPaired sjf (sjf_queue construct_chain) (pos 0)
unfolding construct_chain
sjf-IsPaired = record {
  own_queue = refl;
  exact = record { size_exact = refl; levels_ok = tt };
  empty = refl;
  quantum_pos = not_rr sjf (pos 0) refl;
}

pub stcf-IsPaired : IsPaired stcf (stcf_queue construct_chain) (pos 0)
unfolding construct_chain
stcf-IsPaired = record {
  own_queue = refl;
  exact = record { size_exact = refl; levels_ok = tt };
  empty = refl;
  quantum_pos = not_rr stcf (pos 0) refl;
}

pub rr-IsPaired : (q : ℤ) → pos 0 <ℤ q → IsPaired rr (rr_queue construct_rr_process_queue) q
unfolding construct_rr_process_queue
rr-IsPaired q h = record {
  own_queue = refl;
  exact = record { size_exact = refl; levels_ok = tt };
  empty = refl;
  quantum_pos = λ e. h;
}

no_processes : (n : ℕ) → all_processes (replicate n []) ≡ []
unfolding all_processes
no_processes zero = refl
no_processes (suc n) = no_processes n

length-empty_levels : (n : ℕ) (q : List ℕ) → length (replicate n q) ≡ n
length-empty_levels zero q = refl
length-empty_levels (suc n) q = ap suc (length-empty_levels n q)

choose_rr-PairedSetup : (q : ℤ) → PairedSetup (choose_rr q)
unfolding choose_rr PairedSetup
choose_rr-PairedSetup q = elim (Bool-cases (leb_ℤ q (pos 0))) [
  | inl e ↦ rw e tt
  | inr e ↦ rw e (rr-IsPaired q (ground (arith, e)))
]

queue_of_config-PairedSetup : (c : MlfqConfig) → PairedSetup (queue_of_config c)
unfolding queue_of_config PairedSetup construct_mlfq_process_queue
queue_of_config-PairedSetup c = elim (Bool-cases (c.num_levels == 0)) [
  | inl e ↦ rw (e, construct_mlfq_process_queue, queue_of_config, PairedSetup) tt
  | inr e ↦
      rw (e, construct_mlfq_process_queue, queue_of_config, PairedSetup)
        (record {
          own_queue = refl;
          exact = record {
            size_exact = rw (no_processes c.num_levels) refl;
            levels_ok = record {
              some_level = ground (arith, e);
              level_count = length-empty_levels c.num_levels [];
            };
          };
          empty = no_processes c.num_levels;
          quantum_pos = not_rr mlfq (pos 0) refl;
        })
]

queue_of_loaded-PairedSetup : (r : LoadResult) → PairedSetup (queue_of_loaded r)
unfolding queue_of_loaded
queue_of_loaded-PairedSetup (loaded c) = queue_of_config-PairedSetup c
queue_of_loaded-PairedSetup rejected = unfold PairedSetup in tt
queue_of_loaded-PairedSetup out_of_array = unfold PairedSetup in tt

choose_for-PairedSetup :
    (fopen : List ℕ → Option (List (List ℕ))) (a : CommandLineArguments) (o : Option Algorithm)
    → PairedSetup (choose_for fopen a o)
unfolding choose_for choose_mlfq
choose_for-PairedSetup fopen a none = unfold PairedSetup in tt
choose_for-PairedSetup fopen a (some fcfs) = unfold PairedSetup in fcfs-IsPaired
choose_for-PairedSetup fopen a (some sjf) = unfold PairedSetup in sjf-IsPaired
choose_for-PairedSetup fopen a (some stcf) = unfold PairedSetup in stcf-IsPaired
choose_for-PairedSetup fopen a (some rr) = choose_rr-PairedSetup a.quantum
choose_for-PairedSetup fopen a (some mlfq) = by_file a.mlfq_config_file
  where
    by_file : (o : Option (List ℕ)) → PairedSetup (choose_mlfq fopen o)
    by_file none = unfold PairedSetup in tt
    by_file (some path) = queue_of_loaded-PairedSetup (load_mlfq_config (open_config fopen path))

-- Whatever the options and the files: the algorithm that `main` passes to the simulator comes with its
-- own kind of queue, empty and with an exact size, and round robin with a positive quantum.
pub choose_algorithm-PairedSetup :
    (fopen : List ℕ → Option (List (List ℕ))) (a : CommandLineArguments)
    → PairedSetup (choose_algorithm fopen a)
unfolding choose_algorithm
choose_algorithm-PairedSetup fopen a = by_name a.algorithm_name
  where
    by_name :
        (o : Option (List ℕ))
        → PairedSetup (elim o [
          | none ↦ failed no_algorithm
          | some name ↦ choose_for fopen a (algorithm_named name)
        ])
    by_name none = unfold PairedSetup in tt
    by_name (some name) = choose_for-PairedSetup fopen a (algorithm_named name)
