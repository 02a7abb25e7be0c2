-- ===== src/Sched/MlfqConfig/Loading.antt =====
-- What a configuration is once it has been loaded.
use cmsc125_lab.Base.{
  leb, ◌==◌, if◌then◌else◌, Bool-cases, length, get_elem?, set, ℤ, pos, negsuc, ℕ, zero, suc, ◌≤◌,
  ◌<◌, ◌≡◌, refl, ap, ◌∙◌, inl, inr, Bool, true, false, not, ◌&&◌, Option, none, some, List, [],
  ◌∷◌, arith,
}
use cmsc125_lab.Scan.{scan_int, scan_literal}
use cmsc125_lab.Sched.MlfqConfig.{
  MlfqLevel, max_mlfq_levels, MlfqConfig, zero_level, empty_config, level_at, LoadResult, loaded,
  rejected, out_of_array, chop_newlines, trim_blanks, scan_level, set_level, set_scanned,
  queue_line, boost_period_key, set_boost_period, boost_line, skip_or_boost, trimmed_line,
  config_line, go_on, config_lines, is_defined, has_queue, validate_mlfq_config, validated,
  load_mlfq_config,
}

-- The array has its ten levels, and the number of levels in use lies within it.
pub record FitsArray (c : MlfqConfig) : Type 0 where
  pub all_levels : length c.levels ≡ max_mlfq_levels
  pub within : c.num_levels ≤ max_mlfq_levels

-- What `validate_mlfq_config` adds: a level, and a level in use that has a quantum or an allotment.
pub record IsUsable (c : MlfqConfig) : Type 0 where
  pub fits : FitsArray c
  pub some_level : 0 < c.num_levels
  pub defined : (i : ℕ) × (i < c.num_levels) × (is_defined (level_at c i) ≡ true)

AllFit : LoadResult → Type 0
AllFit (loaded c) = FitsArray c
AllFit rejected = Unit {0}
AllFit out_of_array = Unit {0}

length-set {ℓ} : {A : Type ℓ} (xs : List A) (i : ℕ) (v : A) → length (set xs i v) ≡ length xs
length-set [] i v = refl
length-set (x ∷ xs) zero v = refl
length-set (x ∷ xs) (suc i) v = ap suc (length-set xs i v)

set_level-AllFit :
    (id quantum allotment : ℤ) (c : MlfqConfig)
    → FitsArray c
    → AllFit (set_level id quantum allotment c)
unfolding set_level AllFit
set_level-AllFit (negsuc n) quantum allotment c f = tt
set_level-AllFit (pos i) quantum allotment c f = elim (Bool-cases (leb max_mlfq_levels i)) [
  | inl e ↦ rw e tt
  | inr e ↦ rw e (record {
    all_levels = length-set c.levels i _ ∙ f.all_levels;
    within = let w = f.within in ground arith;
  })
]

set_scanned-AllFit :
    (o : Option (ℤ × ℤ × ℤ)) (c : MlfqConfig) → FitsArray c → AllFit (set_scanned o c)
unfolding AllFit set_scanned
set_scanned-AllFit none c f = tt
set_scanned-AllFit (some (id, quantum, allotment)) c f = set_level-AllFit id quantum allotment c f

set_boost_period-AllFit :
    (o : Option (ℤ × List ℕ)) (c : MlfqConfig) → FitsArray c → AllFit (set_boost_period o c)
unfolding AllFit
set_boost_period-AllFit none c f = tt
set_boost_period-AllFit (some (p, rest)) c f = record {
  all_levels = f.all_levels;
  within = f.within;
}

skip_or_boost-AllFit :
    (o : Option (List ℕ)) (c : MlfqConfig) → FitsArray c → AllFit (skip_or_boost o c)
unfolding boost_line
skip_or_boost-AllFit none c f = unfold AllFit in f
skip_or_boost-AllFit (some s) c f = set_boost_period-AllFit (scan_int s) c f

if-AllFit : (b : Bool) (r s : LoadResult) → AllFit r → AllFit s → AllFit (if b then r else s)
if-AllFit true r s h k = h
if-AllFit false r s h k = k

trimmed_line-AllFit : (s : List ℕ) (c : MlfqConfig) → FitsArray c → AllFit (trimmed_line s c)
unfolding trimmed_line queue_line
trimmed_line-AllFit [] c f = unfold AllFit in f
trimmed_line-AllFit (k ∷ ks) c f = if-AllFit (k == b'#') _ _ (unfold AllFit in f) (
    if-AllFit (k == b'Q') _ _ (set_scanned-AllFit (scan_level ks) c f)
      (skip_or_boost-AllFit (scan_literal boost_period_key (k ∷ ks)) c f))

go_on-AllFit :
    (r : LoadResult) (f : MlfqConfig → LoadResult)
    → AllFit r
    → ((c : MlfqConfig) → FitsArray c → AllFit (f c))
    → AllFit (go_on r f)
unfolding AllFit
go_on-AllFit (loaded c) f h k = k c h
go_on-AllFit rejected f h k = tt
go_on-AllFit out_of_array f h k = tt

config_lines-AllFit :
    (lines : List (List ℕ)) (c : MlfqConfig) → FitsArray c → AllFit (config_lines lines c)
unfolding config_lines config_line
config_lines-AllFit [] c f = unfold AllFit in f
config_lines-AllFit (line ∷ lines) c f =
    go_on-AllFit (config_line line c) (config_lines lines)
      (trimmed_line-AllFit (trim_blanks (chop_newlines line)) c f) (config_lines-AllFit lines)

-- The level that `has_queue` finds.
abbrev defined_at : List MlfqLevel → ℕ → Bool
defined_at ls i = is_defined (elim (get_elem? ls i) [ none ↦ zero_level | some l ↦ l ])

has_queue-found :
    (n : ℕ) (ls : List MlfqLevel)
    → has_queue n ls ≡ true
    → (i : ℕ) × (i < n) × (defined_at ls i ≡ true)
unfolding has_queue
has_queue-found zero ls h = absurd (cc)
has_queue-found (suc n) [] h = absurd (cc)
has_queue-found (suc n) (l ∷ ls) h = elim (Bool-cases (is_defined l)) [
  | inl e ↦ (0, omega arith, e)
  | inr e ↦
      let found = has_queue-found n ls (rw e at h) in (suc found.0, omega (arith, found.1), found.2)
]

both_true : (a b : Bool) → (a && b) ≡ true → (a ≡ true) × (b ≡ true)
both_true a b h = ground arith

valid-IsUsable : (c : MlfqConfig) → FitsArray c → validate_mlfq_config c ≡ true → IsUsable c
unfolding validate_mlfq_config
valid-IsUsable c f h =
    let parts = both_true (not (c.num_levels == 0)) (has_queue c.num_levels c.levels) h in
    let positive = parts.0 in
    record {
      fits = f;
      some_level = ground arith;
      defined = has_queue-found c.num_levels c.levels parts.1;
    }

-- What a load promises: a configuration that is loaded is usable.
unfoldable pub LoadsUsable : LoadResult → Type 0
LoadsUsable (loaded c) = IsUsable c
LoadsUsable rejected = Unit {0}
LoadsUsable out_of_array = Unit {0}

validated-LoadsUsable : (r : LoadResult) → AllFit r → LoadsUsable (validated r)
unfolding AllFit LoadsUsable
validated-LoadsUsable (loaded c) f = elim (Bool-cases (validate_mlfq_config c)) [
  | inl e ↦ rw e (valid-IsUsable c f e)
  | inr e ↦ rw e tt
]
validated-LoadsUsable rejected f = tt
validated-LoadsUsable out_of_array f = tt

empty_config-FitsArray : FitsArray empty_config
unfolding empty_config
empty_config-FitsArray = record { all_levels = refl; within = omega arith }

-- Whatever the file holds, a configuration that `load_mlfq_config` returns has its array of ten
-- levels, uses between one and ten of them, and one of those has a quantum or an allotment.
pub load_mlfq_config-LoadsUsable :
    (file : Option (List (List ℕ))) → LoadsUsable (load_mlfq_config file)
unfolding load_mlfq_config
load_mlfq_config-LoadsUsable none = unfold LoadsUsable in tt
load_mlfq_config-LoadsUsable (some lines) =
    validated-LoadsUsable (config_lines lines empty_config)
      (config_lines-AllFit lines empty_config empty_config-FitsArray)
