-- ===== src/Sched/EventQueue/Counts.antt =====
-- Which events an operation adds and removes, counted by a test on events.
use cmsc125_lab.Base.{if◌then◌else◌, length, ℕ, suc, ◌+◌, ◌≡◌, refl, Bool, List, [], ◌∷◌, arith}
use cmsc125_lab.Sched.EventQueue.{insert_event}
use cmsc125_lab.Sched.Process.{Store, Event}

abbrev pub one_if : Bool → ℕ
one_if b = if b then 1 else 0

-- The sum of a weight over the events.
unfoldable pub weigh : (Event → ℕ) → List Event → ℕ
weigh w [] = 0
weigh w (e ∷ es) = w e + weigh w es

pub weigh-insert :
    (w : Event → ℕ) (arrange : Bool) (ps : Store) (e : Event) (es : List Event)
    → weigh w (insert_event arrange ps e es) ≡ w e + weigh w es
unfolding weigh insert_event
weigh-insert w arrange ps e [] = refl
weigh-insert w arrange ps e (c ∷ es) = ground (arith, weigh-insert w arrange ps e es)

pub length-insert :
    (arrange : Bool) (ps : Store) (e : Event) (es : List Event)
    → length (insert_event arrange ps e es) ≡ suc (length es)
unfolding insert_event
length-insert arrange ps e [] = refl
length-insert arrange ps e (c ∷ es) = ground (arith, length-insert arrange ps e es)
