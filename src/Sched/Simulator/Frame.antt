-- ===== src/Sched/Simulator/Frame.antt =====
-- What no part of the simulator changes: how many processes there are, and the name, the arrival
-- and the burst time of each.
use cmsc125_lab.Base.{Bool-cases, eqb_ℤ, ℕ, refl, ◌≢◌, inl, inr, true, false, Option, none, some}
use cmsc125_lab.Sched.Algorithms.{record_finish}
use cmsc125_lab.Sched.EventQueue.{EventQueue, remove_event_for_process}
use cmsc125_lab.Sched.Process.{
  unknown_time, EventType, arrival, completion, quantum_expire, priority_boost, Event,
}
use cmsc125_lab.Sched.Simulator.{
  enqueue_waiting, preempts, arrival_while_running, arrive, handle_arrival, finished_processes,
  finish_running, handle_completion, requeue_running, expire, handle_quantum_expire, handle_event,
  process_event,
}
use cmsc125_lab.Sched.Simulator.Handlers.{check_demotion_none}
use cmsc125_lab.Sched.Simulator.Queued.{popped}
use cmsc125_lab.Sched.Simulator.SameJobs.{
  SameJob, Keeps, SameJob-refl, Keeps-refl, Keeps-trans, SameJob-update, dispatch-Keeps,
  enqueue_waiting-Keeps, dispatch_next-Keeps,
}
use cmsc125_lab.Sched.Simulator.Steps.{boost_ignored}
use cmsc125_lab.Sched.State.{SchedulerState, Algorithm, rr, mlfq, sort_by_burst_time}

arrival_while_running-Keeps :
    (alg : Algorithm) (i r : ℕ) (s : SchedulerState) → Keeps s (arrival_while_running alg i r s)
unfolding arrival_while_running
arrival_while_running-Keeps alg i r s =
    elim (Bool-cases (preempts alg (s.processes i) (s.processes r))) [
      | inl pre ↦
          let without : SchedulerState = record s {
            event_queue = remove_event_for_process s.event_queue r;
          } in
          let k : Keeps s without = record {
            jobs = λ a. SameJob-refl (s.processes a);
            same_number = refl;
          } in
          rw pre (
            Keeps-trans (Keeps-trans k (enqueue_waiting-Keeps r without))
              (dispatch-Keeps (sort_by_burst_time alg) false alg i (enqueue_waiting r without)))
      | inr wait ↦ rw wait (enqueue_waiting-Keeps i s)
    ]

handle_arrival-Keeps :
    (alg : Algorithm) (i : ℕ) (s : SchedulerState) → Keeps s (handle_arrival alg i s)
unfolding handle_arrival
handle_arrival-Keeps alg i s = by_running s.running
  where
    by_running : (o : Option ℕ) → Keeps s (arrive alg i o s)
    by_running none = dispatch-Keeps (sort_by_burst_time alg) false alg i s
    by_running (some r) = arrival_while_running-Keeps alg i r s

finish-SameJob :
    (o : Option ℕ) (s : SchedulerState) (a : ℕ) → SameJob (s.processes a) (finished_processes o s a)
unfolding finished_processes
finish-SameJob none s a = SameJob-refl (s.processes a)
finish-SameJob (some r) s a = elim (Bool-cases (eqb_ℤ (s.processes r).finish_time unknown_time)) [
  | inl open_end ↦ rw open_end (
      SameJob-update s.processes r (record_finish s.current_time (s.processes r))
        (record { same_pid = refl; same_arrival = refl; same_burst = refl }) a)
  | inr set_end ↦ rw set_end (SameJob-refl (s.processes a))
]

pub finish_running-Keeps : (s : SchedulerState) → Keeps s (finish_running s)
unfolding finish_running
finish_running-Keeps s = record { jobs = finish-SameJob s.running s; same_number = refl }

handle_completion-Keeps : (alg : Algorithm) (s : SchedulerState) → Keeps s (handle_completion alg s)
unfolding handle_completion finish_running
handle_completion-Keeps alg s =
    let t : SchedulerState = record s {
      processes = finished_processes s.running s;
      running = none;
    } in
    let k : Keeps s t = record { jobs = finish-SameJob s.running s; same_number = refl } in
    Keeps-trans k (dispatch_next-Keeps (sort_by_burst_time alg) false alg t)

requeue_running-Keeps :
    (alg : Algorithm) (r : ℕ) (s : SchedulerState) → Keeps s (requeue_running alg false r s)
unfolding requeue_running
requeue_running-Keeps rr r s = record {
  jobs = λ a. SameJob-refl (s.processes a);
  same_number = refl;
}
requeue_running-Keeps _ r s = enqueue_waiting-Keeps r s

handle_quantum_expire-Keeps :
    (alg : Algorithm) (s : SchedulerState) → alg ≢ mlfq → Keeps s (handle_quantum_expire alg s)
unfolding handle_quantum_expire
handle_quantum_expire-Keeps alg s h = by_running s.running
  where
    by_running : (o : Option ℕ) → Keeps s (expire alg o s)
    by_running none = dispatch_next-Keeps (sort_by_burst_time alg) true alg s
    by_running (some r) = rw (check_demotion_none alg r s h) (
        Keeps-trans (requeue_running-Keeps alg r s)
          (dispatch_next-Keeps (sort_by_burst_time alg) true alg (requeue_running alg false r s)))

handle_event-Keeps :
    (alg : Algorithm) (k : EventType) (p : Option ℕ) (s : SchedulerState)
    → alg ≢ mlfq
    → Keeps s (handle_event alg k p s)
unfolding handle_event
handle_event-Keeps alg arrival none s h = Keeps-refl s
handle_event-Keeps alg arrival (some i) s h = handle_arrival-Keeps alg i s
handle_event-Keeps alg completion p s h = handle_completion-Keeps alg s
handle_event-Keeps alg quantum_expire p s h = handle_quantum_expire-Keeps alg s h
handle_event-Keeps alg priority_boost p s h = rw (boost_ignored alg s h) (Keeps-refl s)

-- Outside MLFQ, no round changes the number of processes, or the name, arrival or burst time of one.
pub process_event-Keeps :
    (alg : Algorithm) (s : SchedulerState) (r : Event × EventQueue)
    → alg ≢ mlfq
    → Keeps s (process_event alg s r)
unfolding process_event
process_event-Keeps alg s (e, q) h =
    let k : Keeps s (popped s (e, q)) = record {
      jobs = λ a. SameJob-refl (s.processes a);
      same_number = refl;
    } in
    Keeps-trans k (handle_event-Keeps alg e.type e.process (popped s (e, q)) h)
