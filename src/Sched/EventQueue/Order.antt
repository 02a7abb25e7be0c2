-- ===== src/Sched/EventQueue/Order.antt =====
-- The event queue stays in order of time, and events of one time come out in the order in which
-- they were put in.
use cmsc125_lab.Base.{
  if◌then◌else◌, Bool-cases, All, ℤ, ◌≤ℤ◌, ◌<ℤ◌, leb_ℤ, ℕ, ◌-◌, ◌≡◌, refl, inl, inr, Bool, true,
  false, some, List, [], ◌∷◌, ◌++◌, arith,
}
use cmsc125_lab.Sched.EventQueue.{
  EventQueue, walks_past, insert_event, enqueue_event, dequeue_event, unlink_event,
  remove_event_for_process,
}
use cmsc125_lab.Sched.Process.{Store, Event}

-- No event of the list is due before `t`.
abbrev pub NotBefore : ℤ → List Event → Type 0
NotBefore t = All (λ (e : Event). t ≤ℤ e.time)

abbrev pub IsSorted : List Event → Type 0
IsSorted [] = Unit
IsSorted (e ∷ es) = NotBefore e.time es × IsSorted es

NotBefore-mono : (t u : ℤ) (es : List Event) → t ≤ℤ u → NotBefore u es → NotBefore t es
NotBefore-mono t u [] h b = tt
NotBefore-mono t u (e ∷ es) h b = (omega arith, NotBefore-mono t u es h b.1)

pub insert-NotBefore :
    (arrange : Bool) (ps : Store) (t : ℤ) (e : Event) (es : List Event)
    → t ≤ℤ e.time
    → NotBefore t es
    → NotBefore t (insert_event arrange ps e es)
unfolding insert_event
insert-NotBefore arrange ps t e [] h b = (h, tt)
insert-NotBefore arrange ps t e (c ∷ es) h b = elim (Bool-cases (walks_past arrange ps e c)) [
  | inl past ↦ rw past (b.0, insert-NotBefore arrange ps t e es h b.1)
  | inr stop ↦ rw stop (h, b)
]

walks_past_le :
    (arrange : Bool) (ps : Store) (e c : Event)
    → walks_past arrange ps e c ≡ true
    → c.time ≤ℤ e.time
unfolding walks_past
walks_past_le arrange ps e c h = ground arith

stops_le :
    (arrange : Bool) (ps : Store) (e c : Event)
    → walks_past arrange ps e c ≡ false
    → e.time ≤ℤ c.time
unfolding walks_past
stops_le arrange ps e c h = ground arith

pub insert-IsSorted :
    (arrange : Bool) (ps : Store) (e : Event) (es : List Event)
    → IsSorted es
    → IsSorted (insert_event arrange ps e es)
unfolding insert_event
insert-IsSorted arrange ps e [] s = (tt, tt)
insert-IsSorted arrange ps e (c ∷ es) s = elim (Bool-cases (walks_past arrange ps e c)) [
  | inl past ↦ rw past (
    insert-NotBefore arrange ps c.time e es (walks_past_le arrange ps e c past) s.0,
    insert-IsSorted arrange ps e es s.1,
  )
  | inr stop ↦
      let le = stops_le arrange ps e c stop in
      rw stop ((le, NotBefore-mono e.time c.time es le s.0), s)
]

-- The events due at `t` or before, and those after it, each in the order of the list.
pub upto : ℤ → List Event → List Event
upto t [] = []
upto t (e ∷ es) = if leb_ℤ e.time t then e ∷ upto t es else upto t es

pub later : ℤ → List Event → List Event
later t [] = []
later t (e ∷ es) = if leb_ℤ e.time t then later t es else e ∷ later t es

upto-none :
    (t : ℤ) (c : Event) (es : List Event) → t <ℤ c.time → NotBefore c.time es → upto t es ≡ []
unfolding upto
upto-none t c [] h b = refl
upto-none t c (e ∷ es) h b = ground (arith, upto-none t c es h b.1)

walks_past-fifo : (ps : Store) (e c : Event) → walks_past false ps e c ≡ leb_ℤ c.time e.time
unfolding walks_past
walks_past-fifo ps e c = ground arith

-- Without the sort flag, a new event goes behind every event that is due no later than it, and
-- before every event that is due later.
pub insert_fifo :
    (ps : Store) (e : Event) (es : List Event)
    → IsSorted es
    → (upto e.time (insert_event false ps e es) ≡ upto e.time es ++ e ∷ [])
      × (later e.time (insert_event false ps e es) ≡ later e.time es)
unfolding insert_event upto later
insert_fifo ps e [] s = (ground arith, ground arith)
insert_fifo ps e (c ∷ es) s =
    ground (arith, walks_past-fifo ps e c, insert_fifo ps e es s.1, upto-none e.time c es)

-- Without the tie-break on remaining time, `enqueue_event` puts an event into a sorted queue after
-- all events due by its time and before all later ones, and the queue stays sorted.
pub enqueue_event-fifo :
    (ps : Store) (q : EventQueue) (e : Event)
    → IsSorted q.events
    → let q' = enqueue_event false ps q e in
      (upto e.time q'.events ≡ upto e.time q.events ++ e ∷ [])
      × (later e.time q'.events ≡ later e.time q.events)
      × IsSorted q'.events
unfolding enqueue_event
enqueue_event-fifo ps q e s =
    let f = insert_fifo ps e q.events s in (f.0, f.1, insert-IsSorted false ps e q.events s)

unlink-NotBefore :
    (t : ℤ) (i : ℕ) (es : List Event) → NotBefore t es → NotBefore t (unlink_event i es).0
unfolding unlink_event
unlink-NotBefore t i [] b = tt
unlink-NotBefore t i (e ∷ es) b = ground (arith, unlink-NotBefore t i es b.1)

unlink-IsSorted : (i : ℕ) (es : List Event) → IsSorted es → IsSorted (unlink_event i es).0
unfolding unlink_event
unlink-IsSorted i [] s = tt
unlink-IsSorted i (e ∷ es) s =
    ground (arith, unlink-IsSorted i es s.1, unlink-NotBefore e.time i es s.0)

-- A queue whose events are in order and not before `t`.
pub record IsTimely (t : ℤ) (q : EventQueue) : Type 0 where
  pub sorted : IsSorted q.events
  pub not_before : NotBefore t q.events

pub enqueue-IsTimely :
    (arrange : Bool) (ps : Store) (t : ℤ) (q : EventQueue) (e : Event)
    → t ≤ℤ e.time
    → IsTimely t q
    → IsTimely t (enqueue_event arrange ps q e)
unfolding enqueue_event
enqueue-IsTimely arrange ps t q e h v = record {
  sorted = insert-IsSorted arrange ps e q.events v.sorted;
  not_before = insert-NotBefore arrange ps t e q.events h v.not_before;
}

pub remove-IsTimely :
    (t : ℤ) (q : EventQueue) (i : ℕ) → IsTimely t q → IsTimely t (remove_event_for_process q i)
unfolding remove_event_for_process
remove-IsTimely t q i v = record {
  sorted = unlink-IsSorted i q.events v.sorted;
  not_before = unlink-NotBefore t i q.events v.not_before;
}

-- The event that comes out is due first: no event that stays is due before it.
pub dequeue-IsTimely :
    (t : ℤ) (q q' : EventQueue) (e : Event)
    → dequeue_event q ≡ some (e, q')
    → IsTimely t q
    → (t ≤ℤ e.time) × IsTimely e.time q'
unfolding dequeue_event
dequeue-IsTimely t q q' e h v = go q.events refl v.sorted v.not_before
  where
    go :
        (es : List Event)
        → q.events ≡ es
        → IsSorted es
        → NotBefore t es
        → (t ≤ℤ e.time) × IsTimely e.time q'
    go [] p s b = ground arith
    go (c ∷ es) p s b = ground (
      arith,
      let v' : IsTimely c.time (record { events = es; size = q.size - 1 }) = record {
        sorted = s.1;
        not_before = s.0;
      } in
          v',
    )
