-- ===== src/Sched/Simulator/Measure.antt =====
-- A number that bounds how many more rounds the event loop makes.
use cmsc125_lab.Base.{
  ltb, Bool-cases, length, update, pos_part, ℕ, zero, suc, ◌+◌, ◌*◌, ◌≤◌, ◌<◌, ◌≡◌, refl, ap, inl,
  inr, Bool, List, arith,
}
use cmsc125_lab.Sched.EventQueue.{enqueue_event}
use cmsc125_lab.Sched.EventQueue.Counts.{weigh, weigh-insert}
use cmsc125_lab.Sched.Process.{
  Process, Store, EventType, arrival, quantum_expire, Event, construct_event,
}
use cmsc125_lab.Sched.Simulator.{dispatch}
use cmsc125_lab.Sched.Simulator.Dispatch.{ended, is_run, stored, end_event, run_spent}
use cmsc125_lab.Sched.Simulator.Invariant.{cpu_events, Core}
use cmsc125_lab.Sched.State.{SchedulerState, Algorithm}
use cmsc125_lab.Sched.WaitingQueue.Contents.{contents, hit}

abbrev pub event_weight : EventType → ℕ
event_weight arrival = 3
event_weight quantum_expire = 2
event_weight _ = 1

abbrev pub event_weights : List Event → ℕ
event_weights = weigh (λ (e : Event). event_weight e.type)

-- The time that remains of the first `n` processes together.
unfoldable pub left : Store → ℕ → ℕ
left ps zero = 0
left ps (suc n) = left ps n + pos_part (ps n).remaining_time

pub left-eq :
    (ps qs : Store) (n : ℕ)
    → ((a : ℕ) → (qs a).remaining_time ≡ (ps a).remaining_time)
    → left qs n ≡ left ps n
unfolding left
left-eq ps qs zero h = refl
left-eq ps qs (suc n) h = omega (arith, left-eq ps qs n h, ap pos_part (h n))

left-update_of_le :
    (ps : Store) (n i : ℕ) (p : Process) → n ≤ i → left (update ps i p) n ≡ left ps n
unfolding left
left-update_of_le ps zero i p h = refl
left-update_of_le ps (suc n) i p h = ground (arith, left-update_of_le ps n i p)

left-update :
    (ps : Store) (n i : ℕ) (p : Process)
    → i < n
    → left (update ps i p) n + pos_part (ps i).remaining_time
      ≡ left ps n + pos_part p.remaining_time
unfolding left
left-update ps zero i p h = absurd (omega arith)
left-update ps (suc n) i p h = elim (Bool-cases (ltb i n)) [
  | inl below ↦ ground (arith, left-update ps n i p)
  | inr last ↦ ground (arith, left-update_of_le ps n i p)
]

unfoldable pub measure : SchedulerState → ℕ
measure s =
    2 * left s.processes s.num_processes
    + length (contents s.waiting)
    + event_weights s.event_queue.events

-- A dispatch adds at most one: a run that takes time lowers what remains by as much as its event
-- weighs.
pub measure-dispatch :
    (arrange safety : Bool) (alg : Algorithm) (i : ℕ) (s : SchedulerState)
    → Core alg (λ a. hit a i) s
    → cpu_events s.event_queue.events ≡ 0
    → measure (dispatch arrange safety alg i s) ≤ measure s + 1
unfolding measure dispatch enqueue_event construct_event
measure-dispatch arrange safety alg i s c free = ground (
  arith,
  weigh-insert (λ (e : Event). event_weight e.type) arrange (stored arrange safety alg i s c free)
      (end_event arrange safety alg i s c free) s.event_queue.events,
  left-update s.processes s.num_processes i (ended arrange safety alg i s c free),
  c.in_range i,
  run_spent arrange safety alg i s c free,
  is_run arrange safety alg i s c free,
)
