-- ===== src/Sched/MlfqConfig.antt =====
-- includes/mlfq-config.h and src/mlfq-config.c of lab_2/schedsim-2. A file is the list of the lines
-- that `fgets` returns, or none if neither path opens; allocation does not fail.
pub mod Loading
pub mod Lines
pub mod Printing
mod Tests
use cmsc125_lab.Base.{
  leb, ◌==◌, if◌then◌else◌, ◌>>=◌, get_elem?, set, replicate, ℤ, pos, negsuc, eqb_ℤ, ℕ, zero, suc,
  Bool, false, not, ◌&&◌, ◌||◌, Option, none, some, List, [], ◌∷◌,
}
use cmsc125_lab.Scan.{scan_int, scan_literal}

pub record MlfqLevel : Type 0 where
  pub queue_id : ℤ
  pub time_quantum : ℤ
  pub allotment : ℤ

abbrev pub max_mlfq_levels : ℕ
max_mlfq_levels = 10

pub record MlfqConfig : Type 0 where
  pub levels : List MlfqLevel
  pub num_levels : ℕ
  pub boost_period : ℤ

abbrev pub zero_level : MlfqLevel
zero_level = record { queue_id = pos 0; time_quantum = pos 0; allotment = pos 0 }

-- `memset` and the two defaults of `load_mlfq_config`.
unfoldable pub empty_config : MlfqConfig
empty_config = record {
  levels = replicate max_mlfq_levels zero_level;
  num_levels = 0;
  boost_period = negsuc 0;
}

-- `config->levels[level]`; every level the program reads lies in the array.
abbrev pub level_at : MlfqConfig → ℕ → MlfqLevel
level_at c level = elim (get_elem? c.levels level) [ none ↦ zero_level | some l ↦ l ]

-- A line of the file: the three ways in which it ends, of which `out_of_array` is the write before
-- the array of levels that a negative queue id leads to.
pub data LoadResult : Type 0 where
  loaded : MlfqConfig → LoadResult
  rejected out_of_array : LoadResult

-- The line without the newlines and carriage returns at its end.
abbrev pub is_newline : ℕ → Bool
is_newline c = (c == 10) || (c == 13)

abbrev pub chop_before : ℕ → List ℕ → List ℕ
chop_before c [] = if is_newline c then [] else c ∷ []
chop_before c (d ∷ ds) = c ∷ d ∷ ds

unfoldable pub chop_newlines : List ℕ → List ℕ
chop_newlines [] = []
chop_newlines (c ∷ cs) = chop_before c (chop_newlines cs)

unfoldable pub trim_blanks : List ℕ → List ℕ
trim_blanks [] = []
trim_blanks (c ∷ cs) = let rest = trim_blanks cs in if (c == b' ') || (c == 9) then rest else c ∷ cs

-- `sscanf` with three `%d`, after the letter Q.
unfoldable pub scan_level : List ℕ → Option (ℤ × ℤ × ℤ)
scan_level s = do
  id ← scan_int s
  quantum ← scan_int id.1
  allotment ← scan_int quantum.1
  some (id.0, quantum.0, allotment.0)

-- The checks and writes for a queue definition. A negative id is below every number of levels, so it
-- raises none.
unfoldable pub set_level : ℤ → ℤ → ℤ → MlfqConfig → LoadResult
set_level (negsuc n) quantum allotment c = out_of_array
set_level (pos i) quantum allotment c =
    if leb max_mlfq_levels i
    then rejected
    else loaded (record c {
      num_levels = if leb c.num_levels i then suc i else c.num_levels;
      levels =
          set c.levels i
            (record { queue_id = pos i; time_quantum = quantum; allotment = allotment });
    })

abbrev pub set_scanned : Option (ℤ × ℤ × ℤ) → MlfqConfig → LoadResult
unfolding set_level
set_scanned none c = rejected
set_scanned (some (id, quantum, allotment)) c = set_level id quantum allotment c

unfoldable pub queue_line : List ℕ → MlfqConfig → LoadResult
unfolding scan_level set_level
queue_line s c = set_scanned (scan_level s) c

-- The characters of BOOST_PERIOD.
abbrev pub boost_period_key : List ℕ
boost_period_key =
    b'B' ∷ b'O' ∷ b'O' ∷ b'S' ∷ b'T' ∷ b'_' ∷ b'P' ∷ b'E' ∷ b'R' ∷ b'I' ∷ b'O' ∷ b'D' ∷ []

abbrev pub set_boost_period : Option (ℤ × List ℕ) → MlfqConfig → LoadResult
set_boost_period none c = rejected
set_boost_period (some (period, rest)) c = loaded (record c { boost_period = period })

unfoldable pub boost_line : List ℕ → MlfqConfig → LoadResult
boost_line s c = set_boost_period (scan_int s) c

-- One round of the loop, on a trimmed line. A line that begins in no known way is skipped.
abbrev pub skip_or_boost : Option (List ℕ) → MlfqConfig → LoadResult
unfolding boost_line
skip_or_boost none c = loaded c
skip_or_boost (some rest) c = boost_line rest c

unfoldable pub trimmed_line : List ℕ → MlfqConfig → LoadResult
unfolding queue_line boost_line scan_literal
trimmed_line [] c = loaded c
trimmed_line (k ∷ ks) c =
    if k == b'#'
    then loaded c
    else if k == b'Q'
    then queue_line ks c
    else skip_or_boost (scan_literal boost_period_key (k ∷ ks)) c

unfoldable pub config_line : List ℕ → MlfqConfig → LoadResult
unfolding trimmed_line chop_newlines trim_blanks
config_line line c = trimmed_line (trim_blanks (chop_newlines line)) c

abbrev pub go_on : LoadResult → (MlfqConfig → LoadResult) → LoadResult
go_on (loaded c) f = f c
go_on rejected f = rejected
go_on out_of_array f = out_of_array

unfoldable pub config_lines : List (List ℕ) → MlfqConfig → LoadResult
unfolding config_line
config_lines [] c = loaded c
config_lines (line ∷ lines) c = go_on (config_line line c) (config_lines lines)

abbrev pub is_defined : MlfqLevel → Bool
is_defined l = not (eqb_ℤ l.time_quantum (pos 0)) || not (eqb_ℤ l.allotment (pos 0))

-- The loop that sets `has_queue`, over the first `n` levels.
unfoldable pub has_queue : ℕ → List MlfqLevel → Bool
has_queue zero ls = false
has_queue (suc n) [] = false
has_queue (suc n) (l ∷ ls) = is_defined l || has_queue n ls

-- The other checks only warn.
unfoldable pub validate_mlfq_config : MlfqConfig → Bool
unfolding has_queue
validate_mlfq_config c = not (c.num_levels == 0) && has_queue c.num_levels c.levels

abbrev pub validated : LoadResult → LoadResult
validated (loaded c) = if validate_mlfq_config c then loaded c else rejected
validated rejected = rejected
validated out_of_array = out_of_array

unfoldable pub load_mlfq_config : Option (List (List ℕ)) → LoadResult
unfolding config_lines empty_config validate_mlfq_config
load_mlfq_config none = rejected
load_mlfq_config (some lines) = validated (config_lines lines empty_config)
