-- ===== src/Sched/Tests.antt =====
-- Two jobs under round robin, and other examples of the theorems.
use cmsc125_lab.Base.{
  length, ℤ, pos, negsuc, ◌≤ℤ◌, ℕ, zero, suc, ◌≡◌, refl, ◌≢◌, false, none, some, List, [], ◌∷◌,
  ◌++◌, arith,
}
use cmsc125_lab.Sched.Chain.{
  Chain, chain_dequeue, burst_key, remaining_key, sjf_enqueue, stcf_enqueue,
}
use cmsc125_lab.Sched.Chain.Ordered.{LeastFirst, sjf_enqueue-LeastFirst, stcf_enqueue-LeastFirst}
use cmsc125_lab.Sched.EventQueue.{
  EventQueue, construct_event_queue, walks_past, insert_event, enqueue_event, dequeue_event,
}
use cmsc125_lab.Sched.EventQueue.Order.{IsSorted, upto, later, enqueue_event-fifo}
use cmsc125_lab.Sched.MlfqConfig.{MlfqConfig}
use cmsc125_lab.Sched.MlfqQueue.{MlfqQueue, mlfq_dequeue, all_processes, mlfq_priority_boost}
use cmsc125_lab.Sched.MlfqQueue.Levels.{
  DequeuesHighest, mlfq_dequeue-DequeuesHighest, Boosted, mlfq_priority_boost-Boosted,
}
use cmsc125_lab.Sched.Process.{
  Process, construct_process, Store, arrival, completion, Event, construct_event,
}
use cmsc125_lab.Sched.RrQueue.{RrQueue, construct_rr_process_queue, rr_enqueue, rr_requeue}
use cmsc125_lab.Sched.Simulator.{
  run_length, scheduled, handle_priority_boost, process_event, initialize_events,
  simulate_scheduler,
}
use cmsc125_lab.Sched.Simulator.Boost.{OneRunEndMore, running_mlfq, boost-OneRunEndMore}
use cmsc125_lab.Sched.Simulator.Completion.{
  Ends, event_loop-Ends, IsComplete, simulate_scheduler-IsComplete,
}
use cmsc125_lab.Sched.Simulator.Frame.{process_event-Keeps}
use cmsc125_lab.Sched.Simulator.Invariant.{Inv}
use cmsc125_lab.Sched.Simulator.Measure.{left}
use cmsc125_lab.Sched.Simulator.RunTime.{IsRun, schedule-IsRun}
use cmsc125_lab.Sched.Simulator.SameJobs.{Keeps}
use cmsc125_lab.Sched.Simulator.Start.{IsReady, started, start-Inv, measure-start}
use cmsc125_lab.Sched.Simulator.Steps.{process_event-Inv}
use cmsc125_lab.Sched.State.{SchedulerState, rr, mlfq}
use cmsc125_lab.Sched.WaitingQueue.{WaitingQueue, rr_queue, mlfq_queue, enqueue, dequeue}
use cmsc125_lab.Sched.WaitingQueue.Contents.{IsExact}
use cmsc125_lab.Sched.WaitingQueue.Contract.{Enqueued, enqueue-Enqueued, Dequeued, dequeue-Dequeued}
use cmsc125_lab.Sched.WaitingQueue.Serving.{serve_all, rr_requeue-Serves}

-- `workload_at` as an array: the processes of the list, and an empty process beyond it.
abbrev from_list : List Process → Store
from_list [] i = construct_process [] (pos 0) (pos 0)
from_list (p ∷ ps) zero = p
from_list (p ∷ ps) (suc i) = from_list ps i

abbrev initial_state : List Process → WaitingQueue → ℤ → SchedulerState
initial_state ps w quantum = record {
  processes = from_list ps;
  running = none;
  waiting = w;
  num_processes = length ps;
  current_time = pos 0;
  quantum_time = quantum;
  gantt = [];
  event_queue = construct_event_queue;
}

abbrev two_jobs : List Process
two_jobs =
    construct_process (65 ∷ []) (pos 0) (pos 3) ∷ construct_process (66 ∷ []) (pos 1) (pos 2) ∷ []

abbrev two_jobs_rr : SchedulerState
two_jobs_rr = initial_state two_jobs (rr_queue construct_rr_process_queue) (pos 2)

two_jobs-arrive : (a : ℕ) → pos 0 ≤ℤ (from_list two_jobs a).arrival_time
unfolding construct_process
two_jobs-arrive zero = omega arith
two_jobs-arrive (suc zero) = omega arith
two_jobs-arrive (suc (suc a)) = omega arith

two_jobs-burst : (a : ℕ) → pos 0 ≤ℤ (from_list two_jobs a).burst_time
unfolding construct_process
two_jobs-burst zero = omega arith
two_jobs-burst (suc zero) = omega arith
two_jobs-burst (suc (suc a)) = omega arith

two_jobs-unspent :
    (a : ℕ) → (from_list two_jobs a).remaining_time ≡ (from_list two_jobs a).burst_time
unfolding construct_process
two_jobs-unspent zero = refl
two_jobs-unspent (suc zero) = refl
two_jobs-unspent (suc (suc a)) = refl

rr-not-mlfq : rr ≢ mlfq
rr-not-mlfq e = ground arith

two_jobs_rr-IsReady : IsReady rr two_jobs_rr
unfolding construct_rr_process_queue
two_jobs_rr-IsReady = record {
  no_mlfq = rr-not-mlfq;
  paired = refl;
  exact = record { size_exact = refl; levels_ok = tt };
  empty = refl;
  idle = refl;
  quantum_pos = λ _. omega arith;
  arrivals_later = two_jobs-arrive;
  bursts_nonneg = two_jobs-burst;
  unspent = two_jobs-unspent;
}

event_loop-Ends_example : Ends rr 40 (started rr two_jobs_rr)
unfolding construct_process
event_loop-Ends_example =
    event_loop-Ends 40 (started rr two_jobs_rr) (start-Inv two_jobs_rr-IsReady)
      (unfold left in omega (arith, measure-start two_jobs_rr-IsReady))

simulate_scheduler-IsComplete_example :
    (t : SchedulerState) × (simulate_scheduler rr 40 two_jobs_rr ≡ some t)
    × IsComplete two_jobs_rr t
unfolding construct_process
simulate_scheduler-IsComplete_example =
    simulate_scheduler-IsComplete 40 two_jobs_rr two_jobs_rr-IsReady (unfold left in omega arith)

-- The first event of the run.
abbrev first_event : Event × EventQueue
first_event = elim (dequeue_event (started rr two_jobs_rr).event_queue) [
  | none ↦ (construct_event (pos 0) arrival none, construct_event_queue)
  | some r ↦ r
]

started-first : dequeue_event (started rr two_jobs_rr).event_queue ≡ some first_event
unfolding initialize_events enqueue_event insert_event construct_event_queue walks_past
    construct_event construct_process
started-first = unfold dequeue_event in refl

process_event-Inv_example : Inv rr (process_event rr (started rr two_jobs_rr) first_event)
process_event-Inv_example =
    process_event-Inv (start-Inv two_jobs_rr-IsReady) first_event started-first

process_event-Keeps_example :
    Keeps (started rr two_jobs_rr) (process_event rr (started rr two_jobs_rr) first_event)
process_event-Keeps_example =
    process_event-Keeps rr (started rr two_jobs_rr) first_event rr-not-mlfq

schedule-IsRun_example :
    IsRun (from_list two_jobs 1) (run_length rr 1 two_jobs_rr) (scheduled rr 1 two_jobs_rr)
unfolding construct_process
schedule-IsRun_example =
    schedule-IsRun rr 1 two_jobs_rr rr-not-mlfq (λ _. omega arith) (omega arith)

-- Two processes that wait in the second of two levels.
abbrev boost_config : MlfqConfig
boost_config = record {
  levels =
      record { queue_id = pos 0; time_quantum = pos 10; allotment = pos 50 }
      ∷ record { queue_id = pos 1; time_quantum = negsuc 0; allotment = negsuc 0 }
      ∷ [];
  num_levels = 2;
  boost_period = pos 200;
}

abbrev two_levels : MlfqQueue
two_levels = record {
  level_queues = [] ∷ (1 ∷ 2 ∷ []) ∷ [];
  config = boost_config;
  num_levels = 2;
  last_boost_time = pos 0;
  size = 2;
}

mlfq_dequeue-DequeuesHighest_example : DequeuesHighest two_levels (mlfq_dequeue two_levels)
mlfq_dequeue-DequeuesHighest_example = mlfq_dequeue-DequeuesHighest two_levels

mlfq_priority_boost-Boosted_example :
    Boosted (from_list two_jobs) two_levels (mlfq_priority_boost (from_list two_jobs) two_levels)
mlfq_priority_boost-Boosted_example =
    mlfq_priority_boost-Boosted (from_list two_jobs) two_levels (omega arith)

two_levels-IsExact : IsExact (mlfq_queue two_levels)
unfolding all_processes
two_levels-IsExact = record {
  size_exact = refl;
  levels_ok = record { some_level = omega arith; level_count = refl };
}

enqueue-Enqueued_example :
    Enqueued 0 (mlfq_queue two_levels) (enqueue (from_list two_jobs) (mlfq_queue two_levels) 0).1
enqueue-Enqueued_example =
    enqueue-Enqueued (from_list two_jobs) (mlfq_queue two_levels) 0 two_levels-IsExact

dequeue-Dequeued_example : Dequeued (mlfq_queue two_levels) (dequeue (mlfq_queue two_levels))
dequeue-Dequeued_example = dequeue-Dequeued (mlfq_queue two_levels) two_levels-IsExact

abbrev busy_rr : RrQueue
busy_rr = record { active = 0 ∷ []; round = 1 ∷ []; pending = []; size = 2 }

rr_requeue-Serves_example :
    serve_all (rr_enqueue (rr_requeue busy_rr 2) 3).size (rr_enqueue (rr_requeue busy_rr 2) 3)
    ≡ busy_rr.active ++ (busy_rr.round ++ 2 ∷ (busy_rr.pending ++ 3 ∷ []))
rr_requeue-Serves_example =
    rr_requeue-Serves busy_rr 2 3 (record { size_exact = refl; levels_ok = tt })

-- The longer job alone in a queue.
abbrev one_queued : Chain
one_queued = record { items = 0 ∷ []; size = 1 }

sjf_enqueue-LeastFirst_example :
    LeastFirst burst_key
      (from_list two_jobs)
      (sjf_enqueue (from_list two_jobs) one_queued 1).items
      (chain_dequeue (sjf_enqueue (from_list two_jobs) one_queued 1))
sjf_enqueue-LeastFirst_example = sjf_enqueue-LeastFirst (from_list two_jobs) one_queued 1 (tt, tt)

stcf_enqueue-LeastFirst_example :
    LeastFirst remaining_key
      (from_list two_jobs)
      (stcf_enqueue (from_list two_jobs) one_queued 1).items
      (chain_dequeue (stcf_enqueue (from_list two_jobs) one_queued 1))
stcf_enqueue-LeastFirst_example = stcf_enqueue-LeastFirst (from_list two_jobs) one_queued 1 (tt, tt)

-- Two events of the time 5 and one of the time 9.
abbrev some_events : EventQueue
some_events = record {
  events =
      record { time = pos 5; type = arrival; process = some 0 }
      ∷ record { time = pos 5; type = completion; process = some 1 }
      ∷ record { time = pos 9; type = arrival; process = some 2 }
      ∷ [];
  size = 3;
}

some_events-IsSorted : IsSorted some_events.events
some_events-IsSorted = ground arith

enqueue_event-fifo_example :
    let q' =
      enqueue_event false
        (from_list two_jobs)
        some_events
        (record { time = pos 5; type = arrival; process = some 3 }) in
    (upto (pos 5) q'.events
      ≡ upto (pos 5) some_events.events
        ++ record { time = pos 5; type = arrival; process = some 3 } ∷ [])
    × (later (pos 5) q'.events ≡ later (pos 5) some_events.events)
    × IsSorted q'.events
enqueue_event-fifo_example =
    enqueue_event-fifo (from_list two_jobs) some_events
      (record { time = pos 5; type = arrival; process = some 3 }) some_events-IsSorted

-- The running process has its end pending when the boost comes.
abbrev run_pending : SchedulerState
run_pending = record two_jobs_rr {
  event_queue = record {
    events = record { time = pos 7; type = completion; process = some 0 } ∷ [];
    size = 1;
  };
}

boost-OneRunEndMore_example :
    OneRunEndMore run_pending.event_queue.events
      (handle_priority_boost mlfq (running_mlfq run_pending 0 two_levels))
unfolding construct_process
boost-OneRunEndMore_example =
    boost-OneRunEndMore run_pending 0 two_levels two_levels-IsExact (omega arith)
