-- ===== src/Shell/Interpreter.antt =====
-- lab_1/interpreter.c and the loop of lab_1/mysh.c. What the system answers in one round is a record of
-- parameters. `fork` returns in the parent and in the child: what the child does is `run_child`.
-- The messages are values; the shell's own table of jobs is in Jobs.antt.
pub mod Sessions
use cmsc125_lab.Base.{
  ltb, ◌==◌, if◌then◌else◌, length, ℕ, suc, Bool, Option, none, some, List, [], ◌∷◌, ◌++◌,
}
use cmsc125_lab.Shell.Command.{Token, same_string, Command, get_command}
use cmsc125_lab.Shell.Jobs.{max_bg_jobs, BackgroundJob, record_job, cleanup_background_jobs}

pub record Kernel : Type 0 where
  pub change_directory : Token → Bool
  pub working_directory : Option Token
  pub forked : Option ℕ
  pub exit_code : ℕ → Option ℕ
  pub has_finished : ℕ → Bool
  pub opens_input : Token → Bool
  pub opens_output : Token → Bool → Bool
  pub executes : Token → List Token → Bool

pub data Message : Type 0 where
  missing_argument invalid_directory directory_changed pwd_failed fork_failed too_many_jobs :
      Message
  directory_is : Token → Message
  exited_with : ℕ → Message
  started_job : ℕ → Token → ℕ → Message

-- One round of the shell: it has ended, or the value of `interpreter` with its messages and the table.
pub data Round : Type 0 where
  shell_exits : Round
  returns : ℕ → List Message → List BackgroundJob → Round

abbrev pub exit_word : Token
exit_word = b'e' ∷ b'x' ∷ b'i' ∷ b't' ∷ []

abbrev pub cd_word : Token
cd_word = b'c' ∷ b'd' ∷ []

abbrev pub pwd_word : Token
pwd_word = b'p' ∷ b'w' ∷ b'd' ∷ []

-- SUCCESSFUL and UNSUCCESSFUL.
abbrev pub successful : ℕ
successful = 0

abbrev pub unsuccessful : ℕ
unsuccessful = 1

-- `args[1]`, which is NULL for a command without arguments.
abbrev pub second_token : List Token → Option Token
second_token [] = none
second_token (t ∷ []) = none
second_token (t ∷ u ∷ ts) = some u

unfoldable pub cd_status : Kernel → Option Token → ℕ × Message
cd_status k none = (unsuccessful, missing_argument)
cd_status k (some path) =
    if k.change_directory path
    then (successful, directory_changed)
    else (unsuccessful, invalid_directory)

unfoldable pub pwd_status : Option Token → ℕ × Message
pwd_status none = (unsuccessful, pwd_failed)
pwd_status (some path) = (successful, directory_is path)

-- What `handles_builtin` makes of a command.
pub data Builtin : Type 0 where
  exits not_builtin : Builtin
  a_builtin : ℕ × Message → Builtin

unfoldable pub handles_builtin : Kernel → Token → List Token → Builtin
unfolding same_string cd_status pwd_status
handles_builtin k name args =
    if same_string name exit_word
    then exits
    else if same_string name cd_word
    then a_builtin (cd_status k (second_token args))
    else if same_string name pwd_word
    then a_builtin (pwd_status k.working_directory)
    else not_builtin

-- How the child ends its part: it exits, or the program runs in it, with the files of its standard input
-- and output.
pub data ChildEnd : Type 0 where
  child_exits : ℕ → ChildEnd
  becomes : Token → List Token → Option Token → Option (Token × Bool) → ChildEnd

unfoldable pub execute_program :
    Kernel → Token → List Token → Option Token → Option (Token × Bool) → ChildEnd
execute_program k name args input output =
    if k.executes name args then becomes name args input output else child_exits 127

unfoldable pub redirect_output : Kernel → Token → Command → Option Token → ChildEnd
unfolding execute_program
redirect_output k name c input = elim c.output_file [
  | none ↦ execute_program k name c.args input none
  | some f ↦
      if k.opens_output f c.append
      then execute_program k name c.args input (some (f, c.append))
      else child_exits 1
]

unfoldable pub run_child : Kernel → Token → Command → ChildEnd
unfolding redirect_output
run_child k name c = elim c.input_file [
  | none ↦ redirect_output k name c none
  | some f ↦ if k.opens_input f then redirect_output k name c (some f) else child_exits 1
]

-- The parent, waiting for a command in the foreground.
unfoldable pub waited : Option ℕ → List Message
waited none = []
waited (some code) = if code == 0 then [] else exited_with code ∷ []

-- The loop that builds `full_command`.
unfoldable pub full_command : List Token → Token
full_command [] = []
full_command (t ∷ ts) = t ++ b' ' ∷ full_command ts

unfoldable pub started : ℕ → Command → List BackgroundJob → List Message
unfolding full_command
started pid c jobs =
    if ltb (length jobs) max_bg_jobs
    then started_job (suc (length jobs)) (full_command c.args) pid ∷ []
    else too_many_jobs ∷ []

unfoldable pub run_parent : Kernel → ℕ → Command → List BackgroundJob → Round
unfolding waited started record_job
run_parent k pid c jobs =
    if c.background
    then returns 0 (started pid c jobs) (record_job pid c jobs)
    else returns 0 (waited (k.exit_code pid)) jobs

unfoldable pub after_fork : Kernel → Option ℕ → Command → List BackgroundJob → Round
unfolding run_parent
after_fork k none c jobs = returns 1 (fork_failed ∷ []) jobs
after_fork k (some pid) c jobs = run_parent k pid c jobs

unfoldable pub after_builtin : Kernel → Builtin → Command → List BackgroundJob → Round
unfolding after_fork
after_builtin k exits c jobs = shell_exits
after_builtin k (a_builtin (status, message)) c jobs = returns status (message ∷ []) jobs
after_builtin k not_builtin c jobs = after_fork k k.forked c jobs

unfoldable pub interpreter : Kernel → Command → List BackgroundJob → Round
unfolding after_builtin handles_builtin
interpreter k c jobs = elim c.command [
  | none ↦ returns 0 [] jobs
  | some name ↦ after_builtin k (handles_builtin k name c.args) c jobs
]

-- One round of the loop of `main`; the line is what `fgets` returns, none at the end of the input.
unfoldable pub shell_round : Kernel → Option (List ℕ) → List BackgroundJob → Round
unfolding interpreter cleanup_background_jobs get_command
shell_round k line jobs =
    interpreter k (get_command line) (cleanup_background_jobs k.has_finished jobs)

-- The table after the rounds; none once the shell has ended.
unfoldable pub run_shell :
    List (Kernel × Option (List ℕ)) → List BackgroundJob → Option (List BackgroundJob)
unfolding shell_round
run_shell [] jobs = some jobs
run_shell ((k, line) ∷ rounds) jobs = elim (shell_round k line jobs) [
  | shell_exits ↦ none
  | returns status messages jobs' ↦ run_shell rounds jobs'
]
