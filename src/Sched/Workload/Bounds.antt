-- ===== src/Sched/Workload/Bounds.antt =====
-- What the readers of src/scheduler.c in lab_2/schedsim-2 return.
use cmsc125_lab.Base.{
  ltb, Bool-cases, length, take, length-append, All, ℕ, zero, suc, ◌≤◌, ◌<◌, ◌≡◌, refl, inl, inr,
  List, [], ◌∷◌, ◌++◌, arith,
}
use cmsc125_lab.Sched.Process.{unknown_time, Process, construct_process}
use cmsc125_lab.Sched.State.{max_processes}
use cmsc125_lab.Sched.Workload.{
  Fields, scan_item, process_of, read_items, split_items, get_processes_from_string,
}

-- A process as the simulator expects it: a name that fits its field, and nothing run.
pub record IsBuilt (p : Process) : Type 0 where
  pub name_fits : length p.pid ≤ 15
  pub all_remains : p.remaining_time ≡ p.burst_time
  pub not_started : p.start_time ≡ unknown_time

-- At most as many processes as the array holds, each as it should be.
pub record FitsState (ps : List Process) : Type 0 where
  pub within_array : length ps ≤ max_processes
  pub built : All IsBuilt ps

length-take : (n : ℕ) (xs : List ℕ) → length (take n xs) ≤ n
length-take zero xs = omega arith
length-take (suc n) [] = omega arith
length-take (suc n) (x ∷ xs) = omega (arith, length-take n xs)

process_of-IsBuilt : (f : Fields) → IsBuilt (process_of f)
unfolding process_of construct_process
process_of-IsBuilt f = record {
  name_fits = length-take 15 f.name_field;
  all_remains = refl;
  not_started = refl;
}

All-append :
    (ps : List Process) (p : Process) → All IsBuilt ps → IsBuilt p → All IsBuilt (ps ++ p ∷ [])
All-append [] p all b = (b, tt)
All-append (q ∷ ps) p (c, all) b = (c, All-append ps p all b)

more-FitsState :
    (ps : List Process) (f : Fields)
    → FitsState ps
    → length ps < max_processes
    → FitsState (ps ++ process_of f ∷ [])
more-FitsState ps f fits room = record {
  within_array = omega (arith, length-append ps (process_of f ∷ []));
  built = All-append ps (process_of f) fits.built (process_of-IsBuilt f);
}

read_items-FitsState :
    (stale : ℕ → Fields) (items : List (List ℕ)) (ps : List Process)
    → FitsState ps
    → FitsState (read_items stale items ps)
unfolding read_items
read_items-FitsState stale [] ps fits = fits
read_items-FitsState stale (item ∷ items) ps fits =
    elim (Bool-cases (ltb (length ps) max_processes)) [
      | inl e ↦ rw e (
          read_items-FitsState stale items _
            (more-FitsState ps (scan_item item (stale (length ps))) fits (ground (arith, e))))
      | inr e ↦ rw e fits
    ]

none-FitsState : FitsState []
none-FitsState = record { within_array = omega arith; built = tt }

-- Whatever the string and the contents of the variables before the reading, --processes gives at most
-- as many processes as the array holds, each with a name that fits and its whole burst time left.
pub get_processes_from_string-FitsState :
    (stale : ℕ → Fields) (s : List ℕ) → FitsState (get_processes_from_string stale s)
unfolding get_processes_from_string
get_processes_from_string-FitsState stale s =
    read_items-FitsState stale (split_items [] s) [] none-FitsState
