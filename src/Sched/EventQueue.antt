-- ===== src/Sched/EventQueue.antt =====
-- src/data-structures/event-queue.c: a linked list of events in order of time.
pub mod Order
pub mod Counts
use cmsc125_lab.Base.{
  ◌==◌, if◌then◌else◌, ℤ, pos, ltb_ℤ, leb_ℤ, eqb_ℤ, ℕ, suc, ◌-◌, Bool, true, false, not, ◌&&◌,
  Option, none, some, List, [], ◌∷◌,
}
use cmsc125_lab.Sched.Process.{Store, EventType, arrival, Event}

-- The chain from `head`, and the counter that the loop of the simulator tests.
pub record EventQueue : Type 0 where
  pub events : List Event
  pub size : ℕ

unfoldable pub construct_event_queue : EventQueue
construct_event_queue = record { events = []; size = 0 }

-- `event->process->remaining_time`. Events without a process are never compared by it.
abbrev remaining : Store → Option ℕ → ℤ
remaining ps none = pos 0
remaining ps (some i) = (ps i).remaining_time

-- Whether the loop of `enqueue_event` walks past `curr` to place `event` further down.
unfoldable pub walks_past : Bool → Store → Event → Event → Bool
walks_past arrange ps event curr =
    leb_ℤ curr.time event.time
    && not (
        arrange
        && (eqb_ℤ event.time curr.time
            && ltb_ℤ (remaining ps event.process) (remaining ps curr.process)))

unfoldable pub insert_event : Bool → Store → Event → List Event → List Event
insert_event arrange ps event [] = event ∷ []
insert_event arrange ps event (curr ∷ rest) =
    if walks_past arrange ps event curr
    then curr ∷ insert_event arrange ps event rest
    else event ∷ curr ∷ rest

unfoldable pub enqueue_event : Bool → Store → EventQueue → Event → EventQueue
enqueue_event arrange ps q event = record {
  events = insert_event arrange ps event q.events;
  size = suc q.size;
}

unfoldable pub dequeue_event : EventQueue → Option (Event × EventQueue)
dequeue_event q = elim q.events [
  | [] ↦ none
  | event ∷ rest ↦ some (event, record { events = rest; size = q.size - 1 })
]

abbrev pub is_arrival : EventType → Bool
is_arrival arrival = true
is_arrival _ = false

unfoldable pub first_arrival : List Event → Option Event
first_arrival [] = none
first_arrival (curr ∷ rest) = if is_arrival curr.type then some curr else first_arrival rest

unfoldable pub peek_next_arrival : EventQueue → Option Event
unfolding first_arrival
peek_next_arrival q = first_arrival q.events

abbrev pub is_for : ℕ → Event → Bool
is_for i event = elim event.process [ none ↦ false | some j ↦ i == j ]

-- The list without its first event of the process, and whether there was one.
unfoldable pub unlink_event : ℕ → List Event → List Event × Bool
unlink_event i [] = ([], false)
unlink_event i (curr ∷ rest) =
    let (rest', found) = unlink_event i rest in
    if is_for i curr then (rest, true) else (curr ∷ rest', found)

unfoldable pub remove_event_for_process : EventQueue → ℕ → EventQueue
unfolding unlink_event
remove_event_for_process q i =
    let (rest, found) = unlink_event i q.events in
    record { events = rest; size = if found then q.size - 1 else q.size }
