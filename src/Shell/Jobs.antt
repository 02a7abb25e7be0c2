-- ===== src/Shell/Jobs.antt =====
-- The background jobs of lab_1/interpreter.c: the table `bg_jobs` as the list of its first
-- `total_bg_job_counter` entries.
pub mod Cleanup
use cmsc125_lab.Base.{ltb, if◌then◌else◌, length, ℕ, zero, suc, Bool, List, [], ◌∷◌, ◌++◌}
use cmsc125_lab.Shell.Command.{Command, first_token}

abbrev pub max_bg_jobs : ℕ
max_bg_jobs = 128

pub record BackgroundJob : Type 0 where
  pub job_pid : ℕ
  pub job_command : Command

-- The copy that a background job keeps: `command` is the first of the copied arguments.
unfoldable pub copy_command : Command → Command
copy_command c = record c { command = first_token c.args }

-- The last branch of `interpreter`, in the parent of the child `pid`: with the table full, the child
-- is not recorded.
unfoldable pub record_job : ℕ → Command → List BackgroundJob → List BackgroundJob
unfolding copy_command
record_job pid c jobs =
    if ltb (length jobs) max_bg_jobs
    then jobs ++ record { job_pid = pid; job_command = copy_command c } ∷ []
    else jobs

abbrev pub last_of : BackgroundJob → List BackgroundJob → BackgroundJob
last_of j [] = j
last_of j (k ∷ js) = last_of k js

abbrev pub all_but_last : BackgroundJob → List BackgroundJob → List BackgroundJob
all_but_last j [] = []
all_but_last j (k ∷ js) = j ∷ all_but_last k js

-- `bg_jobs[i] = bg_jobs[--total_bg_job_counter]`, on the entries after `i`: the entries from `i` on.
unfoldable pub move_last : List BackgroundJob → List BackgroundJob
move_last [] = []
move_last (j ∷ js) = last_of j js ∷ all_but_last j js

-- The loop of `cleanup_background_jobs` on the entries from `i` on. `finished` tells for which child
-- `waitpid` without waiting returns its pid; the loop asks once for each entry.
unfoldable pub clean_from : (ℕ → Bool) → ℕ → List BackgroundJob → List BackgroundJob
unfolding move_last
clean_from finished zero jobs = jobs
clean_from finished (suc fuel) [] = []
clean_from finished (suc fuel) (j ∷ js) =
    let after_removal = clean_from finished fuel (move_last js) in
    let after_step = clean_from finished fuel js in
    if finished j.job_pid then after_removal else j ∷ after_step

-- Each round takes one entry, so the number of entries is enough fuel.
unfoldable pub cleanup_background_jobs : (ℕ → Bool) → List BackgroundJob → List BackgroundJob
unfolding clean_from
cleanup_background_jobs finished jobs = clean_from finished (length jobs) jobs
