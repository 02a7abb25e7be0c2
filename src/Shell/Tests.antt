-- ===== src/Shell/Tests.antt =====
-- The command line `sort -r < a >> b &` in characters, and examples of the theorems.
use cmsc125_lab.Base.{ltb, length, ℕ, ◌≡◌, refl, true, Option, none, some, List, [], ◌∷◌}
use cmsc125_lab.Shell.Command.{
  Token, same_string, contains_string, Command, split_tokens, take_args, read_symbol,
  read_redirections, parse_rest, parse_tokens, chop_newline, get_command,
}
use cmsc125_lab.Shell.Command.Guarantees.{parse_tokens-IsCommand}
use cmsc125_lab.Shell.Command.Printing.{
  print_command, AllPlain, AppendsToFile, IsCommand, parse_tokens-print_command,
}
use cmsc125_lab.Shell.Interpreter.{Kernel, run_shell}
use cmsc125_lab.Shell.Interpreter.Sessions.{TableOk, run_shell-TableOk}
use cmsc125_lab.Shell.Jobs.{BackgroundJob, cleanup_background_jobs}
use cmsc125_lab.Shell.Jobs.Cleanup.{Cleaned, cleanup_background_jobs-Cleaned}

abbrev sort_line : List ℕ
sort_line =
    115 ∷ 111 ∷ 114 ∷ 116 ∷ 32 ∷ 45 ∷ 114 ∷ 32 ∷ 60 ∷ 9 ∷ 97 ∷ 32 ∷ 62 ∷ 62 ∷ 32 ∷ 98 ∷ 32 ∷ 38 ∷ 10
    ∷ []

abbrev sort_tokens : List Token
sort_tokens =
    (115 ∷ 111 ∷ 114 ∷ 116 ∷ [])
    ∷ (45 ∷ 114 ∷ [])
    ∷ (60 ∷ [])
    ∷ (97 ∷ [])
    ∷ (62 ∷ 62 ∷ [])
    ∷ (98 ∷ [])
    ∷ (38 ∷ [])
    ∷ []

abbrev sort_command : Command
sort_command = record {
  command = some (115 ∷ 111 ∷ 114 ∷ 116 ∷ []);
  args = (115 ∷ 111 ∷ 114 ∷ 116 ∷ []) ∷ (45 ∷ 114 ∷ []) ∷ [];
  input_file = some (97 ∷ []);
  output_file = some (98 ∷ []);
  append = true;
  background = true;
}

sort_line_test : get_command (some sort_line) ≡ sort_command
unfolding get_command parse_tokens parse_rest take_args contains_string same_string
    read_redirections read_symbol split_tokens chop_newline
sort_line_test = refl

sort_command-IsCommand : IsCommand sort_command
unfolding AllPlain AppendsToFile contains_string same_string
sort_command-IsCommand = record {
  named_first = refl;
  plain_args = (refl, (refl, tt));
  appends_to_file = tt;
}

parse_tokens-print_command_example : parse_tokens (print_command sort_command) ≡ sort_command
parse_tokens-print_command_example = parse_tokens-print_command sort_command sort_command-IsCommand

parse_tokens-IsCommand_example : IsCommand (parse_tokens sort_tokens)
parse_tokens-IsCommand_example = parse_tokens-IsCommand sort_tokens

-- Three jobs, of which the first two have finished.
abbrev three_jobs : List BackgroundJob
three_jobs =
    record { job_pid = 10; job_command = sort_command }
    ∷ record { job_pid = 11; job_command = sort_command }
    ∷ record { job_pid = 12; job_command = sort_command }
    ∷ []

cleanup_background_jobs-Cleaned_example :
    Cleaned (λ p. ltb p 12) three_jobs (cleanup_background_jobs (λ p. ltb p 12) three_jobs)
cleanup_background_jobs-Cleaned_example = cleanup_background_jobs-Cleaned (λ p. ltb p 12) three_jobs

-- A kernel in which every call succeeds, and a session of two lines.
abbrev willing_kernel : ℕ → Kernel
willing_kernel pid = record {
  change_directory = λ t. true;
  working_directory = some (47 ∷ []);
  forked = some pid;
  exit_code = λ p. some 0;
  has_finished = λ p. ltb p pid;
  opens_input = λ t. true;
  opens_output = λ t b. true;
  executes = λ t ts. true;
}

abbrev two_rounds : List (Kernel × Option (List ℕ))
two_rounds = (willing_kernel 10, some sort_line) ∷ (willing_kernel 11, some sort_line) ∷ []

abbrev or_no_jobs : Option (List BackgroundJob) → List BackgroundJob
or_no_jobs none = []
or_no_jobs (some jobs) = jobs

abbrev jobs_after : List BackgroundJob
jobs_after = or_no_jobs (run_shell two_rounds [])

two_rounds-run : run_shell two_rounds [] ≡ some jobs_after
unfolding run_shell get_command
two_rounds-run = refl

run_shell-TableOk_example : TableOk jobs_after
run_shell-TableOk_example = run_shell-TableOk two_rounds jobs_after two_rounds-run

one_job_test : length jobs_after ≡ 1
unfolding run_shell get_command
one_job_test = refl
