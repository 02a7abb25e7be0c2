-- ===== src/Sched/Workload.antt =====
-- src/scheduler.c of lab_2/schedsim-2: the processes of a workload file or of the option --processes. A
-- file is the list of the lines that `fgets` returns. `sscanf` leaves the variables of the
-- conversions that it does not reach as they were; what they hold before the first one is a parameter.
pub mod Bounds
pub mod Printing
use cmsc125_lab.Base.{
  ltb, ◌==◌, if◌then◌else◌, length, ℤ, ℕ, Bool, true, Option, none, some, List, [], ◌∷◌, ◌++◌,
}
use cmsc125_lab.Scan.{skip_spaces, scan_int, scan_until, not_empty, scan_literal}
use cmsc125_lab.Sched.Process.{Process, construct_process}
use cmsc125_lab.Sched.State.{max_processes}

-- `pid`, `arrival_time` and `burst_time`, the variables that `sscanf` fills.
pub record Fields : Type 0 where
  pub name_field : List ℕ
  pub arrival_field : ℤ
  pub burst_field : ℤ

unfoldable pub scan_burst : List ℕ → Fields → Fields
scan_burst s f = elim (scan_int s) [ none ↦ f | some (n, rest) ↦ record f { burst_field = n } ]

-- The separator of the format, and the second number.
unfoldable pub scan_separated : List ℕ → List ℕ → Fields → Fields
unfolding scan_burst
scan_separated separator s f = elim (scan_literal separator s) [
  | none ↦ f
  | some rest ↦ scan_burst rest f
]

unfoldable pub scan_times : List ℕ → List ℕ → Fields → Fields
unfolding scan_separated
scan_times separator s f = elim (scan_int s) [
  | none ↦ f
  | some (n, rest) ↦ scan_separated separator rest (record f { arrival_field = n })
]

unfoldable pub scan_after_name : List ℕ → List ℕ → Fields → Fields
unfolding scan_times
scan_after_name separator s f = elim (scan_literal separator s) [
  | none ↦ f
  | some rest ↦ scan_times separator rest f
]

-- `sscanf` with `%15[^c]`, which stops at the character `c`, and two numbers after separators.
unfoldable pub scan_fields : ℕ → List ℕ → List ℕ → Fields → Fields
unfolding scan_after_name
scan_fields stop separator s f = elim (not_empty (scan_until (λ c. c == stop) 15 s)) [
  | none ↦ f
  | some (word, rest) ↦ scan_after_name separator rest (record f { name_field = word })
]

-- "%15[^ ] %d %d": the blanks of the format skip spaces, as `%d` does itself.
unfoldable pub scan_row : List ℕ → Fields → Fields
unfolding scan_fields
scan_row = scan_fields b' ' []

-- "%15[^:]:%d:%d".
unfoldable pub scan_item : List ℕ → Fields → Fields
unfolding scan_fields
scan_item = scan_fields b':' (b':' ∷ [])

unfoldable pub process_of : Fields → Process
process_of f = construct_process f.name_field f.arrival_field f.burst_field

-- `state->processes[state->num_processes++] = p` in the reading of a file, which does not check the
-- bound: none for the write after the array.
unfoldable pub add_process : Process → List Process → Option (List Process)
add_process p ps = if length ps == max_processes then none else some (ps ++ p ∷ [])

-- `line[strcspn(line, "\n")] = 0`.
unfoldable pub cut_newline : List ℕ → List ℕ
cut_newline [] = []
cut_newline (c ∷ cs) = let rest = cut_newline cs in if c == 10 then [] else c ∷ rest

-- The test of `first_char`: blank lines and comments.
abbrev pub begins_comment : List ℕ → Bool
begins_comment [] = true
begins_comment (c ∷ cs) = c == b'#'

unfoldable pub is_skipped : List ℕ → Bool
is_skipped line = begins_comment (skip_spaces line)

-- The loop of `get_processes_from_file`.
unfoldable pub read_rows : List (List ℕ) → Fields → List Process → Option (List Process)
unfolding is_skipped cut_newline scan_row add_process process_of
read_rows [] f ps = some ps
read_rows (line ∷ lines) f ps =
    let row = cut_newline line in
    let filled = scan_row row f in
    let skipped = read_rows lines f ps in
    let added : Option (List Process) = elim (add_process (process_of filled) ps) [
      | none ↦ none
      | some ps' ↦ read_rows lines filled ps'
    ] in
    if is_skipped row then skipped else added

-- The loop of `get_processes_from_string` over the parts between semicolons; `stale` is what the
-- variables of each round hold before it.
unfoldable pub read_items : (ℕ → Fields) → List (List ℕ) → List Process → List Process
unfolding scan_item process_of
read_items stale [] ps = ps
read_items stale (item ∷ items) ps =
    let rest =
      read_items stale items (ps ++ process_of (scan_item item (stale (length ps))) ∷ []) in
    if ltb (length ps) max_processes then rest else ps

-- The parts that `strtok` returns; the first list is the part read so far.
unfoldable pub split_items : List ℕ → List ℕ → List (List ℕ)
split_items [] [] = []
split_items (a ∷ xs) [] = (a ∷ xs) ∷ []
split_items [] (c ∷ cs) = split_items (if c == b';' then [] else c ∷ []) cs
split_items (a ∷ xs) (c ∷ cs) =
    let next = split_items [] cs in
    let longer = split_items (a ∷ xs ++ c ∷ []) cs in if c == b';' then (a ∷ xs) ∷ next else longer

unfoldable pub get_processes_from_string : (ℕ → Fields) → List ℕ → List Process
unfolding read_items split_items
get_processes_from_string stale s = read_items stale (split_items [] s) []

-- The two ways in which the reading of a file does not give a workload.
pub data FileResult : Type 0 where
  read_all : List Process → FileResult
  not_opened past_array : FileResult

unfoldable pub get_processes_from_file : Fields → Option (List (List ℕ)) → FileResult
unfolding read_rows
get_processes_from_file f none = not_opened
get_processes_from_file f (some lines) = elim (read_rows lines f []) [
  | none ↦ past_array
  | some ps ↦ read_all ps
]
