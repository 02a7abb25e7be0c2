-- ===== src/Sched/Simulator/Invariant.antt =====
-- The invariant of the event loop under FCFS, SJF, STCF and RR: where each process is, and which
-- event of the CPU is pending.
use cmsc125_lab.Base.{
  if◌then◌else◌, length, count, pos, ◌≤ℤ◌, ◌<ℤ◌, eqb_ℤ, ℕ, ◌+◌, ◌≤◌, ◌<◌, ◌≡◌, refl, ◌≢◌, Bool,
  true, false, ◌&&◌, Option, none, some, List, [], arith,
}
use cmsc125_lab.Sched.EventQueue.{is_arrival, is_for}
use cmsc125_lab.Sched.EventQueue.Counts.{one_if, weigh}
use cmsc125_lab.Sched.EventQueue.Order.{IsTimely}
use cmsc125_lab.Sched.Process.{
  Process, Store, EventType, completion, quantum_expire, priority_boost, Event,
}
use cmsc125_lab.Sched.State.{SchedulerState, Algorithm, fcfs, sjf, stcf, rr, mlfq}
use cmsc125_lab.Sched.WaitingQueue.{
  WaitingQueue, fcfs_queue, sjf_queue, stcf_queue, rr_queue, mlfq_queue, enqueue, dequeue,
}
use cmsc125_lab.Sched.WaitingQueue.Contents.{contents, IsExact, hit}

-- The algorithm that `main` pairs with a queue.
abbrev pub kind : WaitingQueue → Algorithm
kind (fcfs_queue _) = fcfs
kind (sjf_queue _) = sjf
kind (stcf_queue _) = stcf
kind (rr_queue _) = rr
kind (mlfq_queue _) = mlfq

-- The end of a run of the CPU, as opposed to an arrival.
abbrev pub is_cpu_event : EventType → Bool
is_cpu_event completion = true
is_cpu_event quantum_expire = true
is_cpu_event _ = false

abbrev pub cpu_events : List Event → ℕ
cpu_events = weigh (λ (e : Event). one_if (is_cpu_event e.type))

abbrev pub is_boost : EventType → Bool
is_boost priority_boost = true
is_boost _ = false

abbrev pub boosts : List Event → ℕ
boosts = weigh (λ (e : Event). one_if (is_boost e.type))

-- The pending arrivals of process `a`.
abbrev pub arrivals : ℕ → List Event → ℕ
arrivals a = weigh (λ (e : Event). one_if (is_arrival e.type && is_for a e))

abbrev pub is_completion : EventType → Bool
is_completion completion = true
is_completion _ = false

abbrev pub is_expiry : EventType → Bool
is_expiry quantum_expire = true
is_expiry _ = false

-- Whether an event of type `k` is the one that `p` calls for after its run.
abbrev pub is_end_of : Process → EventType → Bool
is_end_of p k = if eqb_ℤ p.remaining_time (pos 0) then is_completion k else is_expiry k

-- The pending ends of a run of process `a` after which `p` is what remains of it.
abbrev pub ends : ℕ → Process → List Event → ℕ
ends a p = weigh (λ (e : Event). one_if (is_for a e && is_end_of p e.type))

-- How often process `a` waits, or is still to arrive.
abbrev pub held : ℕ → SchedulerState → ℕ
held a s = arrivals a s.event_queue.events + count a (contents s.waiting)

-- `extra` is where else a process may be: on the CPU, or in the hands of a handler.
pub record Core (alg : Algorithm) (extra : ℕ → ℕ) (s : SchedulerState) : Type 0 where
  pub exact : IsExact s.waiting
  pub paired : kind s.waiting ≡ alg
  pub no_mlfq : alg ≢ mlfq
  pub quantum_pos : alg ≡ rr → pos 0 <ℤ s.quantum_time
  pub timely : IsTimely s.current_time s.event_queue
  pub events_counted : s.event_queue.size ≡ length s.event_queue.events
  pub no_boosts : boosts s.event_queue.events ≡ 0
  pub remaining_nonneg : (a : ℕ) → pos 0 ≤ℤ (s.processes a).remaining_time
  pub once : (a : ℕ) → held a s + extra a ≤ 1
  pub in_range : (a : ℕ) → s.num_processes ≤ a → held a s + extra a ≡ 0
  pub not_lost :
      (a : ℕ)
      → a < s.num_processes
      → pos 0 <ℤ (s.processes a).remaining_time
      → held a s + extra a ≡ 1

abbrev pub on_cpu : Option ℕ → ℕ → ℕ
on_cpu none a = 0
on_cpu (some r) a = hit a r

-- The CPU has one pending event, for the running process and of the right type; with none running
-- there is no such event and nobody waits.
abbrev pub Cpu : Store → Option ℕ → WaitingQueue → List Event → Type 0
Cpu ps none w es = (cpu_events es ≡ 0) × (contents w ≡ [])
Cpu ps (some r) w es = (cpu_events es ≡ 1) × (ends r (ps r) es ≡ 1)

pub record Inv (alg : Algorithm) (s : SchedulerState) : Type 0 where
  pub core : Core alg (on_cpu s.running) s
  pub cpu : Cpu s.processes s.running s.waiting s.event_queue.events

pub kind-enqueue : (ps : Store) (w : WaitingQueue) (i : ℕ) → kind (enqueue ps w i).1 ≡ kind w
unfolding enqueue
kind-enqueue ps (fcfs_queue q) i = refl
kind-enqueue ps (sjf_queue q) i = refl
kind-enqueue ps (stcf_queue q) i = refl
kind-enqueue ps (rr_queue q) i = refl
kind-enqueue ps (mlfq_queue q) i = refl

pub enqueue-store :
    (ps : Store) (w : WaitingQueue) (i : ℕ) → kind w ≢ mlfq → (enqueue ps w i).0 ≡ ps
unfolding enqueue
enqueue-store ps (fcfs_queue q) i h = refl
enqueue-store ps (sjf_queue q) i h = refl
enqueue-store ps (stcf_queue q) i h = refl
enqueue-store ps (rr_queue q) i h = refl
enqueue-store ps (mlfq_queue q) i h = absurd (h refl)

pub kind-dequeue : (w w' : WaitingQueue) (i : ℕ) → dequeue w ≡ some (i, w') → kind w' ≡ kind w
unfolding dequeue
kind-dequeue (fcfs_queue q) w' i h = ground arith
kind-dequeue (sjf_queue q) w' i h = ground arith
kind-dequeue (stcf_queue q) w' i h = ground arith
kind-dequeue (rr_queue q) w' i h = ground arith
kind-dequeue (mlfq_queue q) w' i h = ground arith
