-- ===== src/Shell/Jobs/Cleanup.antt =====
-- The clean-up of the background jobs drops the finished ones and no other.
use cmsc125_lab.Base.{
  ltb, if◌then◌else◌, ltb→lt, Bool-cases, length, length-append, ℕ, zero, suc, ◌+◌, ◌≤◌, ◌≡◌, refl,
  ap, inl, inr, Bool, not, ◌&&◌, List, [], ◌∷◌, arith,
}
use cmsc125_lab.Shell.Command.{Command}
use cmsc125_lab.Shell.Jobs.{
  max_bg_jobs, BackgroundJob, copy_command, record_job, last_of, all_but_last, move_last,
  clean_from, cleanup_background_jobs,
}

-- The number of jobs that pass a test.
pub jobs_where : (BackgroundJob → Bool) → List BackgroundJob → ℕ
jobs_where test [] = 0
jobs_where test (j ∷ js) = (if test j then 1 else 0) + jobs_where test js

where-last :
    (test : BackgroundJob → Bool) (j : BackgroundJob) (js : List BackgroundJob)
    → jobs_where test (last_of j js ∷ all_but_last j js) ≡ jobs_where test (j ∷ js)
unfolding jobs_where
where-last test j [] = refl
where-last test j (k ∷ js) = let rest = where-last test k js in omega arith

where-move_last :
    (test : BackgroundJob → Bool) (js : List BackgroundJob)
    → jobs_where test (move_last js) ≡ jobs_where test js
unfolding move_last
where-move_last test [] = refl
where-move_last test (j ∷ js) = where-last test j js

length-all_but_last :
    (j : BackgroundJob) (js : List BackgroundJob) → length (all_but_last j js) ≡ length js
length-all_but_last j [] = refl
length-all_but_last j (k ∷ js) = let rest = length-all_but_last k js in omega arith

length-move_last : (js : List BackgroundJob) → length (move_last js) ≡ length js
unfolding move_last
length-move_last [] = refl
length-move_last (j ∷ js) = ap suc (length-all_but_last j js)

-- After the loop: no entry of a finished child, each test that no finished job passes still passed
-- by as many jobs.
pub record Cleaned (finished : ℕ → Bool) (jobs jobs_left : List BackgroundJob) : Type 0 where
  pub none_finished : jobs_where (λ (j : BackgroundJob). finished j.job_pid) jobs_left ≡ 0
  pub others_kept :
      (test : BackgroundJob → Bool)
      → jobs_where (λ (j : BackgroundJob). test j && not (finished j.job_pid)) jobs_left
        ≡ jobs_where (λ (j : BackgroundJob). test j && not (finished j.job_pid)) jobs

clean_from-Cleaned :
    (finished : ℕ → Bool) (fuel : ℕ) (jobs : List BackgroundJob)
    → length jobs ≤ fuel
    → Cleaned finished jobs (clean_from finished fuel jobs)
unfolding clean_from jobs_where
clean_from-Cleaned finished zero [] h = record { none_finished = refl; others_kept = λ test. refl }
clean_from-Cleaned finished zero (j ∷ js) h = absurd (omega arith)
clean_from-Cleaned finished (suc fuel) [] h = record {
  none_finished = refl;
  others_kept = λ test. refl;
}
clean_from-Cleaned finished (suc fuel) (j ∷ js) h = elim (Bool-cases (finished j.job_pid)) [
  | inl e ↦
      let rest =
        clean_from-Cleaned finished fuel (move_last js)
          (let l = length-move_last js in omega arith) in
      record {
        none_finished = rw e rest.none_finished;
        others_kept = λ test.
            let kept = rest.others_kept test in
            let moved =
              where-move_last (λ (k : BackgroundJob). test k && not (finished k.job_pid)) js in
            ground (arith, e);
      }
  | inr e ↦
      let rest = clean_from-Cleaned finished fuel js (omega arith) in
      record {
        none_finished = let z = rest.none_finished in ground (arith, e);
        others_kept = λ test. let kept = rest.others_kept test in ground (arith, e);
      }
]

-- `cleanup_background_jobs` leaves no entry of a finished child, and keeps every other entry.
pub cleanup_background_jobs-Cleaned :
    (finished : ℕ → Bool) (jobs : List BackgroundJob)
    → Cleaned finished jobs (cleanup_background_jobs finished jobs)
unfolding cleanup_background_jobs
cleanup_background_jobs-Cleaned finished jobs =
    clean_from-Cleaned finished (length jobs) jobs (omega arith)

pub length-clean_from :
    (finished : ℕ → Bool) (fuel : ℕ) (jobs : List BackgroundJob)
    → length (clean_from finished fuel jobs) ≤ length jobs
unfolding clean_from
length-clean_from finished zero jobs = omega arith
length-clean_from finished (suc fuel) [] = omega arith
length-clean_from finished (suc fuel) (j ∷ js) = elim (Bool-cases (finished j.job_pid)) [
  | inl e ↦
      let rest = length-clean_from finished fuel (move_last js) in
      let l = length-move_last js in rw e (omega arith)
  | inr e ↦ let rest = length-clean_from finished fuel js in rw e (omega arith)
]

-- One turn of the loop of `main`, which cleans up and may then record a job, never has more entries
-- than the table holds, if the table held no more before.
pub length-record_job :
    (finished : ℕ → Bool) (pid : ℕ) (c : Command) (jobs : List BackgroundJob)
    → length jobs ≤ max_bg_jobs
    → length (record_job pid c (cleanup_background_jobs finished jobs)) ≤ max_bg_jobs
unfolding record_job cleanup_background_jobs
length-record_job finished pid c jobs h =
    let fewer = length-clean_from finished (length jobs) jobs in
    let left_over = clean_from finished (length jobs) jobs in
    elim (Bool-cases (ltb (length left_over) max_bg_jobs)) [
      | inl e ↦ rw e (
          omega (
            arith,
            ltb→lt (length left_over) max_bg_jobs e,
            length-append left_over (record { job_pid = pid; job_command = copy_command c } ∷ []),
          ))
      | inr e ↦ rw e (omega arith)
    ]
