-- ===== src/Sched/Simulator.antt =====
-- src/simulator.c and `calculate_metrics` of src/metrics.c, in lab_2/schedsim-2: the event loop
-- and its handlers.
pub mod RunTime
pub mod Invariant
pub mod Dispatch
pub mod Moves
pub mod Queued
pub mod Handlers
pub mod Steps
pub mod Measure
pub mod Lowering
pub mod Termination
pub mod Start
pub mod SameJobs
pub mod Frame
pub mod Completion
pub mod Boost
use cmsc125_lab.Base.{
  ltb, ◌==◌, if◌then◌else◌, update, ℤ, pos, pos_part, ◌+ℤ◌, ◌-ℤ◌, ltb_ℤ, leb_ℤ, eqb_ℤ, ℕ, zero, suc,
  Bool, true, false, ◌&&◌, Option, none, some,
}
use cmsc125_lab.Sched.Algorithms.{record_finish, schedule, mlfq_check_demotion}
use cmsc125_lab.Sched.EventQueue.{
  EventQueue, construct_event_queue, enqueue_event, dequeue_event, remove_event_for_process,
}
use cmsc125_lab.Sched.MlfqQueue.{MlfqQueue, mlfq_priority_boost}
use cmsc125_lab.Sched.Process.{
  unknown_time, Process, Store, EventType, arrival, completion, quantum_expire, priority_boost,
  Event, construct_event,
}
use cmsc125_lab.Sched.RrQueue.{rr_requeue}
use cmsc125_lab.Sched.State.{
  SchedulerState, Algorithm, stcf, rr, mlfq, sort_by_burst_time, is_mlfq_scheduler,
  append_gantt_entry,
}
use cmsc125_lab.Sched.WaitingQueue.{
  WaitingQueue, rr_queue, mlfq_queue, queue_size, enqueue, dequeue,
}

abbrev pub event_type_of : Process → EventType
event_type_of p = if eqb_ℤ p.remaining_time (pos 0) then completion else quantum_expire

-- `algo(state)` for the running process: its run time, and the process with what `algo` wrote.
unfoldable pub run_length : Algorithm → ℕ → SchedulerState → ℤ
run_length alg i s = (schedule alg s (s.processes i)).0

unfoldable pub scheduled : Algorithm → ℕ → SchedulerState → Process
scheduled alg i s = (schedule alg s (s.processes i)).1

-- `remaining_time -= run_time`, and the safety check of `handle_quantum_expire` if the handler is
-- that one.
unfoldable pub after_run : Bool → Algorithm → ℕ → SchedulerState → Process
unfolding scheduled
after_run safety alg i s =
    let run = run_length alg i s in
    let p = scheduled alg i s in
    let p' : Process = record p { remaining_time = p.remaining_time -ℤ run } in
    if safety && (eqb_ℤ p'.remaining_time (pos 0) && eqb_ℤ p'.finish_time unknown_time)
    then record_finish (s.current_time +ℤ run) p'
    else p'

-- What follows the choice of the next process in each handler: ask the algorithm, append to the
-- Gantt chart, subtract the run time, and enqueue the event at the end of the run. `arrange` is the
-- sort flag handed to `enqueue_event`; `safety` says whether the handler has the safety check.
unfoldable pub dispatch : Bool → Bool → Algorithm → ℕ → SchedulerState → SchedulerState
dispatch arrange safety alg i s =
    let run = run_length alg i s in
    let p = after_run safety alg i s in
    let ps = update s.processes i p in
    record s {
      processes = ps;
      running = some i;
      gantt = append_gantt_entry s.gantt (scheduled alg i s) s.current_time run;
      event_queue =
          enqueue_event arrange ps s.event_queue
            (construct_event (s.current_time +ℤ run) (event_type_of p) (some i));
    }

-- `state->waiting->enqueue(state->waiting, process)`
unfoldable pub enqueue_waiting : ℕ → SchedulerState → SchedulerState
enqueue_waiting i s =
    let (ps, w) = enqueue s.processes s.waiting i in record s { processes = ps; waiting = w }

unfoldable pub dispatch_taken :
    Bool → Bool → Algorithm → SchedulerState → Option (ℕ × WaitingQueue) → SchedulerState
dispatch_taken arrange safety alg s none = record s { running = none }
dispatch_taken arrange safety alg s (some (i, w)) =
    dispatch arrange safety alg i (record s { waiting = w })

-- `if (state->waiting->size > 0) { ... } else { state->running = NULL; }`. Where the size counts
-- and the dequeue finds nothing, the source would follow a null pointer; the size is exact.
unfoldable pub dispatch_next : Bool → Bool → Algorithm → SchedulerState → SchedulerState
unfolding dispatch_taken
dispatch_next arrange safety alg s =
    if queue_size s.waiting == 0
    then record s { running = none }
    else dispatch_taken arrange safety alg s (dequeue s.waiting)

abbrev pub preempts : Algorithm → Process → Process → Bool
preempts stcf p r = ltb_ℤ p.remaining_time r.remaining_time
preempts _ p r = false

-- The branch of `handle_arrival` for a running process `r`.
unfoldable pub arrival_while_running : Algorithm → ℕ → ℕ → SchedulerState → SchedulerState
arrival_while_running alg i r s =
    if preempts alg (s.processes i) (s.processes r)
    then dispatch (sort_by_burst_time alg) false alg i
        (enqueue_waiting r (record s { event_queue = remove_event_for_process s.event_queue r }))
    else enqueue_waiting i s

-- `handle_arrival`, by whether a process is running.
unfoldable pub arrive : Algorithm → ℕ → Option ℕ → SchedulerState → SchedulerState
unfolding arrival_while_running
arrive alg i none s = dispatch (sort_by_burst_time alg) false alg i s
arrive alg i (some r) s = arrival_while_running alg i r s

unfoldable pub handle_arrival : Algorithm → ℕ → SchedulerState → SchedulerState
unfolding arrive
handle_arrival alg i s = arrive alg i s.running s

unfoldable pub finished_processes : Option ℕ → SchedulerState → Store
finished_processes none s = s.processes
finished_processes (some r) s =
    if eqb_ℤ (s.processes r).finish_time unknown_time
    then update s.processes r (record_finish s.current_time (s.processes r))
    else s.processes

-- The safety net of `handle_completion` and of the end of `simulate_scheduler`.
unfoldable pub finish_running : SchedulerState → SchedulerState
unfolding finished_processes
finish_running s = record s { processes = finished_processes s.running s }

unfoldable pub handle_completion : Algorithm → SchedulerState → SchedulerState
handle_completion alg s =
    dispatch_next (sort_by_burst_time alg) false alg (record (finish_running s) { running = none })

-- The demotion check of `handle_quantum_expire`; true if the process was demoted.
unfoldable pub check_demotion : Algorithm → ℕ → SchedulerState → Bool × SchedulerState
check_demotion mlfq r s = elim s.waiting [
  | mlfq_queue mq ↦
      let (demoted, ps, mq') = mlfq_check_demotion s.processes mq r in
      (demoted, record s { processes = ps; waiting = mlfq_queue mq' })
  | _ ↦ (false, s)
]
check_demotion _ r s = (false, s)

-- `rr_requeue` on the waiting queue of the state, which the source casts to its own type.
unfoldable pub requeue_round : WaitingQueue → ℕ → WaitingQueue
requeue_round (rr_queue q) r = rr_queue (rr_requeue q r)
requeue_round w r = w

-- Where the preempted process goes: the round buffer of RR, or the waiting queue unless the
-- demotion has already put it there.
unfoldable pub requeue_running : Algorithm → Bool → ℕ → SchedulerState → SchedulerState
unfolding requeue_round
requeue_running rr demoted r s = record s { waiting = requeue_round s.waiting r }
requeue_running _ demoted r s = if demoted then s else enqueue_waiting r s

-- `handle_quantum_expire`, by whether a process is running.
unfoldable pub expire : Algorithm → Option ℕ → SchedulerState → SchedulerState
unfolding check_demotion requeue_running
expire alg none s = dispatch_next (sort_by_burst_time alg) true alg s
expire alg (some r) s =
    let (demoted, s') = check_demotion alg r s in
    dispatch_next (sort_by_burst_time alg) true alg (requeue_running alg demoted r s')

unfoldable pub handle_quantum_expire : Algorithm → SchedulerState → SchedulerState
unfolding expire
handle_quantum_expire alg s = expire alg s.running s

-- `mlfq_priority_boost` on the waiting queue of the state.
unfoldable pub boost_waiting : SchedulerState → SchedulerState
boost_waiting s = elim s.waiting [
  | mlfq_queue mq ↦
      let (ps, mq') = mlfq_priority_boost s.processes mq in
      record s { processes = ps; waiting = mlfq_queue mq' }
  | _ ↦ s
]

abbrev pub reset_priority : Process → Process
reset_priority p = record p { priority = pos 0; time_in_queue = pos 0 }

-- The rest of `handle_priority_boost` for a running process that has time left. (The branch of the
-- source for a running process of negative remaining time keeps it running.)
unfoldable pub boost_running : Algorithm → ℕ → SchedulerState → SchedulerState
unfolding boost_waiting
boost_running alg r s =
    let s1 = boost_waiting (record s { running = none }) in
    if ltb_ℤ (pos 0) (s1.processes r).remaining_time
    then dispatch_next false false alg (
        enqueue_waiting r
          (record s1 { processes = update s1.processes r (reset_priority (s1.processes r)) }))
    else record s1 { running = some r }

unfoldable pub handle_priority_boost : Algorithm → SchedulerState → SchedulerState
unfolding boost_waiting boost_running
handle_priority_boost mlfq s = elim s.running [
  | none ↦ dispatch_next false false mlfq (boost_waiting s)
  | some r ↦ if eqb_ℤ (s.processes r).remaining_time (pos 0) then s else boost_running mlfq r s
]
handle_priority_boost _ s = s

-- The `switch` of the event loop, on the type and the process of the event. An arrival has a
-- process.
unfoldable pub handle_event : Algorithm → EventType → Option ℕ → SchedulerState → SchedulerState
handle_event alg arrival none s = s
handle_event alg arrival (some i) s = handle_arrival alg i s
handle_event alg completion p s = handle_completion alg s
handle_event alg quantum_expire p s = handle_quantum_expire alg s
handle_event alg priority_boost p s = handle_priority_boost alg s

-- One round of the loop, for an event that has been dequeued.
unfoldable pub process_event : Algorithm → SchedulerState → Event × EventQueue → SchedulerState
process_event alg s (e, q) =
    handle_event alg e.type e.process (record s { event_queue = q; current_time = e.time })

-- `while (event_queue->size > 0)`; none when the fuel has run out.
unfoldable pub event_loop : Algorithm → ℕ → SchedulerState → Option SchedulerState
event_loop alg zero s = none
event_loop alg (suc fuel) s =
    let next = λ (r : Event × EventQueue). event_loop alg fuel (process_event alg s r) in
    if s.event_queue.size == 0
    then some s
    else elim (dequeue_event s.event_queue) [ none ↦ some s | some r ↦ next r ]

-- The arrivals of the processes `i`, ..., `i + n - 1`, enqueued in that order.
unfoldable pub enqueue_arrivals : Algorithm → Store → ℕ → ℕ → EventQueue → EventQueue
enqueue_arrivals alg ps zero i q = q
enqueue_arrivals alg ps (suc n) i q = enqueue_arrivals alg ps n (suc i) (
    enqueue_event (sort_by_burst_time alg) ps q
      (construct_event (ps i).arrival_time arrival (some i)))

unfoldable pub total_burst : Store → ℕ → ℤ
total_burst ps zero = pos 0
total_burst ps (suc n) = total_burst ps n +ℤ (ps n).burst_time

unfoldable pub max_arrival : Store → ℕ → ℤ
max_arrival ps zero = pos 0
max_arrival ps (suc n) =
    let m = max_arrival ps n in if ltb_ℤ m (ps n).arrival_time then (ps n).arrival_time else m

-- `while (boost_time <= max_time)`, on fuel: at most `max_time + 1` boosts, as the period is
-- positive.
unfoldable pub enqueue_boosts : ℕ → Store → ℤ → ℤ → ℤ → EventQueue → EventQueue
enqueue_boosts zero ps period max_time t q = q
enqueue_boosts (suc fuel) ps period max_time t q =
    let rest =
      enqueue_boosts fuel ps period max_time (t +ℤ period)
        (enqueue_event false ps q (construct_event t priority_boost none)) in
    if leb_ℤ t max_time then rest else q

unfoldable pub boost_horizon : SchedulerState → ℤ
unfolding total_burst max_arrival
boost_horizon s =
    max_arrival s.processes s.num_processes +ℤ total_burst s.processes s.num_processes +ℤ pos 1000

unfoldable pub schedule_boosts : SchedulerState → MlfqQueue → EventQueue → EventQueue
unfolding enqueue_boosts boost_horizon
schedule_boosts s mq q =
    if ltb_ℤ (pos 0) mq.config.boost_period
    then enqueue_boosts (suc (pos_part (boost_horizon s))) s.processes mq.config.boost_period
        (boost_horizon s) mq.config.boost_period q
    else q

unfoldable pub initialize_events : Algorithm → SchedulerState → EventQueue
unfolding enqueue_arrivals schedule_boosts
initialize_events alg s =
    let q = enqueue_arrivals alg s.processes s.num_processes 0 construct_event_queue in
    if is_mlfq_scheduler alg
    then elim s.waiting [ mlfq_queue mq ↦ schedule_boosts s mq q | _ ↦ q ]
    else q

unfoldable pub metrics_of : Process → Process
metrics_of p = record p {
  turnaround_time = p.finish_time -ℤ p.arrival_time;
  waiting_time = p.finish_time -ℤ p.arrival_time -ℤ p.burst_time;
  response_time = p.start_time -ℤ p.arrival_time;
}

-- The loop of `calculate_metrics` over the first `n` processes.
unfoldable pub calculate_metrics : ℕ → Store → Store
unfolding metrics_of
calculate_metrics n ps i = if ltb i n then metrics_of (ps i) else ps i

-- The state after `simulate_scheduler`, which also prints the chart and the metrics.
unfoldable pub simulate_scheduler : Algorithm → ℕ → SchedulerState → Option SchedulerState
unfolding initialize_events event_loop finish_running calculate_metrics
simulate_scheduler alg fuel s =
    elim (event_loop alg fuel (record s { event_queue = initialize_events alg s })) [
      | none ↦ none
      | some s' ↦
          let s'' = finish_running s' in
          some (record s'' { processes = calculate_metrics s''.num_processes s''.processes })
    ]
