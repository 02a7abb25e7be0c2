-- ===== src/Sched/Compare/Switches.antt =====
-- What the number of context switches of src/compare.c says of the chart.
use cmsc125_lab.Base.{
  ◌==◌, if◌then◌else◌, ℕ, ◌+◌, ◌≤◌, ◌≡◌, refl, Bool, true, false, ◌&&◌, List, [], ◌∷◌, arith,
}
use cmsc125_lab.Sched.Compare.{first_letter, switches_after, count_context_switches}
use cmsc125_lab.Sched.State.{GanttEntry}

unfoldable pub same_name : List ℕ → List ℕ → Bool
same_name [] [] = true
same_name [] (d ∷ ds) = false
same_name (c ∷ cs) [] = false
same_name (c ∷ cs) (d ∷ ds) = (c == d) && same_name cs ds

-- The entries whose process is not that of the entry before, by the whole name.
unfoldable pub changes_after : List ℕ → List GanttEntry → ℕ
changes_after name [] = 0
changes_after name (e ∷ es) = (if same_name name e.name then 0 else 1) + changes_after e.name es

unfoldable pub name_changes : List GanttEntry → ℕ
unfolding changes_after
name_changes [] = 0
name_changes (e ∷ es) = changes_after e.name es

switch_counted :
    (xs ys : List ℕ)
    → (if first_letter ys == first_letter xs then 0 else 1) ≤ (if same_name xs ys then 0 else 1)
unfolding same_name
switch_counted [] [] = omega arith
switch_counted [] (d ∷ ds) = ground arith
switch_counted (c ∷ cs) [] = ground arith
switch_counted (c ∷ cs) (d ∷ ds) = ground arith

after-at_most :
    (name : List ℕ) (es : List GanttEntry)
    → switches_after (first_letter name) es ≤ changes_after name es
unfolding switches_after changes_after
after-at_most name [] = omega arith
after-at_most name (e ∷ es) = omega (arith, switch_counted name e.name, after-at_most e.name es)

-- The number of context switches never exceeds the number of entries whose name differs from that of
-- the entry before them.
pub count_context_switches-at_most :
    (es : List GanttEntry) → count_context_switches es ≤ name_changes es
unfolding count_context_switches name_changes
count_context_switches-at_most [] = omega arith
count_context_switches-at_most (e ∷ es) = after-at_most e.name es

-- The first letters of neighbouring entries are the same exactly when their names are.
unfoldable pub LettersTell : List ℕ → List GanttEntry → Type 0
LettersTell name [] = Unit {0}
LettersTell name (e ∷ es) =
    ((first_letter e.name == first_letter name) ≡ same_name name e.name) × LettersTell e.name es

after-exact :
    (name : List ℕ) (es : List GanttEntry)
    → LettersTell name es
    → switches_after (first_letter name) es ≡ changes_after name es
unfolding switches_after changes_after LettersTell
after-exact name [] t = refl
after-exact name (e ∷ es) (t, ts) = rw (t, after-exact e.name es ts) refl

-- On a chart where the first letters of neighbouring entries are the same exactly when their names
-- are, the number of context switches is the number of entries whose name differs from that of the
-- entry before them.
pub count_context_switches-exact :
    (e : GanttEntry) (es : List GanttEntry)
    → LettersTell e.name es
    → count_context_switches (e ∷ es) ≡ name_changes (e ∷ es)
unfolding count_context_switches name_changes
count_context_switches-exact e es t = after-exact e.name es t
