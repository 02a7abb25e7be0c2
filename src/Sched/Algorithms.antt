-- ===== src/Sched/Algorithms.antt =====
-- src/schedulers/*.c of lab_2/schedsim-2: how long the running process runs from now on. Each
-- function returns the time and the process with the fields that it writes.
use cmsc125_lab.Base.{
  if◌then◌else◌, update, ℤ, pos, negsuc, pos_part, ◌+ℤ◌, ◌-ℤ◌, ltb_ℤ, leb_ℤ, eqb_ℤ, ℕ, ◌-◌, Bool,
  true, false, ◌||◌, Option, none, some,
}
use cmsc125_lab.Sched.EventQueue.{EventQueue, peek_next_arrival}
use cmsc125_lab.Sched.MlfqQueue.{MlfqQueue, mlfq_move_process, mlfq_get_quantum, mlfq_get_allotment}
use cmsc125_lab.Sched.Process.{unknown_time, Process, Store}
use cmsc125_lab.Sched.State.{SchedulerState, Algorithm, fcfs, sjf, stcf, rr, mlfq}
use cmsc125_lab.Sched.WaitingQueue.{mlfq_queue}

-- schedule_fcfs. schedule_sjf has the same body.
unfoldable pub schedule_fcfs : ℤ → Process → ℤ × Process
schedule_fcfs now p = (
  p.remaining_time,
  record p {
    start_time = now;
    finish_time = now +ℤ p.burst_time;
    response_time = now -ℤ p.arrival_time;
    waiting_time = now -ℤ p.arrival_time;
    turnaround_time = now +ℤ p.burst_time -ℤ p.arrival_time;
  },
)

-- schedule_sjf of shortest-job-first.c
unfoldable pub schedule_sjf : ℤ → Process → ℤ × Process
schedule_sjf now p = (
  p.remaining_time,
  record p {
    start_time = now;
    finish_time = now +ℤ p.burst_time;
    response_time = now -ℤ p.arrival_time;
    waiting_time = now -ℤ p.arrival_time;
    turnaround_time = now +ℤ p.burst_time -ℤ p.arrival_time;
  },
)

-- The three lines that record a finish, in stcf, mlfq and the handlers.
abbrev pub record_finish : ℤ → Process → Process
record_finish finish p = record p {
  finish_time = finish;
  turnaround_time = finish -ℤ p.arrival_time;
  waiting_time = finish -ℤ p.arrival_time -ℤ p.burst_time;
}

abbrev pub first_start : ℤ → Process → Process
first_start now p = if eqb_ℤ p.start_time unknown_time then record p { start_time = now } else p

-- schedule_stcf: until the next arrival, if that lies in the future.
unfoldable pub time_until_arrival : ℤ → EventQueue → Process → ℤ
time_until_arrival now q p = elim (peek_next_arrival q) [
  | none ↦ p.remaining_time
  | some e ↦ if ltb_ℤ now e.time then e.time -ℤ now else p.remaining_time
]

unfoldable pub schedule_stcf : ℤ → EventQueue → Process → ℤ × Process
unfolding time_until_arrival
schedule_stcf now q p =
    let p1 : Process =
      if eqb_ℤ p.start_time unknown_time
      then record p { start_time = now; response_time = now -ℤ p.arrival_time }
      else p in
    let until = time_until_arrival now q p in
    let run_time = if leb_ℤ p.remaining_time until then p.remaining_time else until in
    (run_time, if eqb_ℤ run_time p.remaining_time then record_finish (now +ℤ run_time) p1 else p1)

unfoldable pub schedule_rr : ℤ → ℤ → Process → ℤ × Process
schedule_rr now quantum p =
    let run_time = if leb_ℤ p.remaining_time quantum then p.remaining_time else quantum in
    let p1 = first_start now p in
    (
      run_time,
      if eqb_ℤ run_time p.remaining_time then record p1 { finish_time = now +ℤ run_time } else p1,
    )

-- schedule_mlfq, of a process that is running. A quantum of -1 is no limit.
unfoldable pub schedule_mlfq : ℤ → MlfqQueue → Process → ℤ × Process
schedule_mlfq now mq p =
    let quantum = mlfq_get_quantum mq p.priority in
    let run_time =
      if eqb_ℤ quantum (negsuc 0) || leb_ℤ p.remaining_time quantum
      then p.remaining_time
      else quantum in
    let p1 = first_start now p in
    let p2 = record p1 { time_in_queue = p.time_in_queue +ℤ run_time } in
    (run_time, if eqb_ℤ run_time p.remaining_time then record_finish (now +ℤ run_time) p2 else p2)

-- The call of `scheduler` through its pointer. schedule_mlfq casts the waiting queue to its own
-- type, which `main` pairs with it; with another queue nothing is scheduled.
unfoldable pub schedule : Algorithm → SchedulerState → Process → ℤ × Process
schedule fcfs s p = schedule_fcfs s.current_time p
schedule sjf s p = schedule_sjf s.current_time p
schedule stcf s p = schedule_stcf s.current_time s.event_queue p
schedule rr s p = schedule_rr s.current_time s.quantum_time p
schedule mlfq s p = elim s.waiting [
  | mlfq_queue mq ↦ schedule_mlfq s.current_time mq p
  | _ ↦ (pos 0, p)
]

-- mlfq_check_demotion, of the running process `i`; the Boolean says whether it was demoted.
unfoldable pub demotion_level : MlfqQueue → Process → Option ℕ
demotion_level mq p =
    let allotment = mlfq_get_allotment mq p.priority in
    let next =
      if leb_ℤ (pos mq.num_levels) (p.priority +ℤ pos 1)
      then mq.num_levels - 1
      else pos_part (p.priority +ℤ pos 1) in
    if eqb_ℤ allotment (negsuc 0)
    then none
    else if ltb_ℤ p.time_in_queue allotment
    then none
    else if eqb_ℤ (pos next) p.priority
    then none
    else some next

unfoldable pub mlfq_check_demotion : Store → MlfqQueue → ℕ → Bool × Store × MlfqQueue
unfolding demotion_level
mlfq_check_demotion ps mq i = elim (demotion_level mq (ps i)) [
  | none ↦ (false, ps, mq)
  | some next ↦
      let (ps', mq') = mlfq_move_process ps mq i next in
      (true, update ps' i (record (ps' i) { priority = pos next }), mq')
]
