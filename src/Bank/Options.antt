-- ===== src/Bank/Options.antt =====
-- `parse_command_line` of lab_3/src/parser.c. What `getopt_long` returns is a list of options; `fopen`
-- gives the lines of a file, none for one that does not open.
mod Tests
use cmsc125_lab.Bank.Accounts.{Bank}
use cmsc125_lab.Bank.Parser.{
  TraceTransaction, TraceResult, trace_missing, outside_ops, trace_loaded, load_transactions,
}
use cmsc125_lab.Bank.Parser.Accounts.{load_accounts}
use cmsc125_lab.Bank.Parser.Marker.{HasMarker, load_transactions-HasMarker}
use cmsc125_lab.Base.{
  if◌then◌else◌, Bool-cases, ℤ, pos, ◌≤ℤ◌, ◌<ℤ◌, ltb_ℤ, leb_ℤ, ℕ, inl, inr, Bool, true, false, ◌||◌,
  Option, none, some, List, [], ◌∷◌, arith,
}
use cmsc125_lab.Scan.{scan_int, long_max}

-- One answer of `getopt_long`, with `optarg`.
pub data GivenOption : Type 0 where
  accounts_option trace_option deadlock_option tick_option : List ℕ → GivenOption
  verbose_option unknown_option : GivenOption

-- The globals and the two local names.
pub record Settings : Type 0 where
  pub account_file : Option (List ℕ)
  pub trace_file : Option (List ℕ)
  pub deadlock_prevention : Bool
  pub tick_ms : ℤ
  pub verbose_mode : Bool

-- TICK_INTERVAL_MS.
abbrev pub tick_interval_ms : ℤ
tick_interval_ms = pos 10

unfoldable pub default_settings : Settings
default_settings = record {
  account_file = none;
  trace_file = none;
  deadlock_prevention = false;
  tick_ms = tick_interval_ms;
  verbose_mode = false;
}

-- The tests after `strtol`, which returns LONG_MAX, with ERANGE, for every number beyond; none for `exit(EXIT_FAILURE)`. A number below the range of long is negative.
unfoldable pub check_tick : ℤ → Option ℤ
check_tick n = if leb_ℤ n (pos 0) || ltb_ℤ (pos long_max) n then none else some n

unfoldable pub read_tick : List ℕ → Option ℤ
unfolding check_tick
read_tick s = elim (scan_int s) [
  | none ↦ none
  | some (n, []) ↦ check_tick n
  | some (n, c ∷ cs) ↦ none
]

-- The loop over the options. Every strategy against deadlocks is taken as prevention.
unfoldable pub read_options : List GivenOption → Settings → Option Settings
unfolding read_tick
read_options [] a = some a
read_options (accounts_option s ∷ os) a = read_options os (record a { account_file = some s })
read_options (trace_option s ∷ os) a = read_options os (record a { trace_file = some s })
read_options (deadlock_option s ∷ os) a = read_options os (record a { deadlock_prevention = true })
read_options (tick_option s ∷ os) a = elim (read_tick s) [
  | none ↦ none
  | some n ↦ read_options os (record a { tick_ms = n })
]
read_options (verbose_option ∷ os) a = read_options os (record a { verbose_mode = true })
read_options (unknown_option ∷ os) a = none

-- How the program starts: with `exit(EXIT_FAILURE)`, with a write outside an array of a transaction, or
-- with the settings, the bank and `tsx`.
pub data Start : Type 0 where
  refuses writes_outside : Start
  starts : Settings → Bank → List TraceTransaction → Start

unfoldable pub start_with : Settings → Bank → TraceResult → Start
start_with a b trace_missing = refuses
start_with a b outside_ops = writes_outside
start_with a b (trace_loaded ts) = starts a b ts

unfoldable pub load_files :
    (List ℕ → Option (List (List ℕ))) → Settings → Bank → Option (List ℕ) → Option (List ℕ) → Start
unfolding start_with
load_files fopen a b none o = refuses
load_files fopen a b (some accounts) none = refuses
load_files fopen a b (some accounts) (some trace) = elim (load_accounts (fopen accounts) b) [
  | none ↦ refuses
  | some b' ↦ start_with a b' (load_transactions (fopen trace))
]

unfoldable pub parse_command_line :
    (List ℕ → Option (List (List ℕ))) → List GivenOption → Bank → Start
unfolding read_options default_settings load_files
parse_command_line fopen os b = elim (read_options os default_settings) [
  | none ↦ refuses
  | some a ↦ load_files fopen a b a.account_file a.trace_file
]

-- A tick has a length, and a long holds it.
pub IsTick : ℤ → Type 0
IsTick n = (pos 0 <ℤ n) × (n ≤ℤ pos long_max)

TickOr : Option ℤ → Type 0
TickOr none = Unit {0}
TickOr (some n) = IsTick n

check_tick-TickOr : (n : ℤ) → TickOr (check_tick n)
unfolding check_tick TickOr IsTick
check_tick-TickOr n = elim (Bool-cases (leb_ℤ n (pos 0) || ltb_ℤ (pos long_max) n)) [
  | inl bad ↦ rw bad tt
  | inr good ↦ rw good (ground (arith, good), ground (arith, good))
]

read_tick-TickOr : (s : List ℕ) → TickOr (read_tick s)
unfolding read_tick
read_tick-TickOr s = by_number (scan_int s)
  where
    by_number :
        (o : Option (ℤ × List ℕ))
        → TickOr (elim o [ none ↦ none | some (n, []) ↦ check_tick n | some (n, c ∷ cs) ↦ none ])
    by_number none = unfold TickOr in tt
    by_number (some (n, [])) = check_tick-TickOr n
    by_number (some (n, c ∷ cs)) = unfold TickOr in tt

TicksOr : Option Settings → Type 0
TicksOr none = Unit {0}
TicksOr (some a) = IsTick a.tick_ms

-- The induction step after an option --tick-ms, whose hypothesis is `ih`.
after_tick-TicksOr :
    (os : List GivenOption) (a : Settings) (o : Option ℤ)
    → ((b : Settings) → IsTick b.tick_ms → TicksOr (read_options os b))
    → TickOr o
    → TicksOr (elim o [ none ↦ none | some n ↦ read_options os (record a { tick_ms = n }) ])
unfolding TickOr TicksOr
after_tick-TicksOr os a none ih t = tt
after_tick-TicksOr os a (some n) ih t = ih (record a { tick_ms = n }) t

read_options-TicksOr :
    (os : List GivenOption) (a : Settings) → IsTick a.tick_ms → TicksOr (read_options os a)
unfolding read_options TicksOr
read_options-TicksOr [] a t = t
read_options-TicksOr (accounts_option s ∷ os) a t = read_options-TicksOr os _ t
read_options-TicksOr (trace_option s ∷ os) a t = read_options-TicksOr os _ t
read_options-TicksOr (deadlock_option s ∷ os) a t = read_options-TicksOr os _ t
read_options-TicksOr (tick_option s ∷ os) a t =
    after_tick-TicksOr os a (read_tick s) (read_options-TicksOr os) (read_tick-TickOr s)
read_options-TicksOr (verbose_option ∷ os) a t = read_options-TicksOr os _ t
read_options-TicksOr (unknown_option ∷ os) a t = tt

-- The input with which `main` goes on.
unfoldable pub StartsReady : Start → Type 0
StartsReady refuses = Unit {0}
StartsReady writes_outside = Unit {0}
StartsReady (starts a b ts) = IsTick a.tick_ms × HasMarker (trace_loaded ts)

start_with-StartsReady :
    (a : Settings) (b : Bank) (r : TraceResult)
    → IsTick a.tick_ms
    → HasMarker r
    → StartsReady (start_with a b r)
unfolding start_with StartsReady
start_with-StartsReady a b trace_missing t h = tt
start_with-StartsReady a b outside_ops t h = tt
start_with-StartsReady a b (trace_loaded ts) t h = (t, h)

load_files-StartsReady :
    (fopen : List ℕ → Option (List (List ℕ))) (a : Settings) (b : Bank) (o p : Option (List ℕ))
    → IsTick a.tick_ms
    → StartsReady (load_files fopen a b o p)
unfolding load_files
load_files-StartsReady fopen a b none p t = unfold StartsReady in tt
load_files-StartsReady fopen a b (some x) none t = unfold StartsReady in tt
load_files-StartsReady fopen a b (some x) (some y) t = by_bank (load_accounts (fopen x) b)
  where
    by_bank :
        (o : Option Bank)
        → StartsReady
            (elim o [ none ↦ refuses | some b' ↦ start_with a b' (load_transactions (fopen y)) ])
    by_bank none = unfold StartsReady in tt
    by_bank (some b') = start_with-StartsReady a b' _ t (load_transactions-HasMarker (fopen y))

-- Whatever the options and the files: when `parse_command_line` returns, a tick lasts at least a
-- millisecond and fits a long, and the list of transactions has the end marker within its array.
pub parse_command_line-StartsReady :
    (fopen : List ℕ → Option (List (List ℕ))) (os : List GivenOption) (b : Bank)
    → StartsReady (parse_command_line fopen os b)
unfolding parse_command_line
parse_command_line-StartsReady fopen os b = by_settings (read_options os default_settings) (
    read_options-TicksOr os default_settings
      (unfold default_settings IsTick in (omega arith, omega arith)))
  where
    by_settings :
        (o : Option Settings)
        → TicksOr o
        → StartsReady
            (elim o [ none ↦ refuses | some a ↦ load_files fopen a b a.account_file a.trace_file ])
    by_settings none t = unfold StartsReady in tt
    by_settings (some a) t = load_files-StartsReady fopen a b _ _ (unfold TicksOr in t)
