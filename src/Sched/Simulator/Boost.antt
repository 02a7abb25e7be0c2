-- ===== src/Sched/Simulator/Boost.antt =====
-- What a priority boost does to the pending ends of runs.
use cmsc125_lab.Base.{
  ltb, ◌==◌, if◌then◌else◌, Bool-cases, length, update, count, pos, ◌+ℤ◌, ◌<ℤ◌, ltb_ℤ, eqb_ℤ, ℕ,
  suc, ◌<◌, ◌≡◌, refl, sym, ap, ◌∙◌, subst, inl, inr, Bool, true, false, Option, none, some, List,
  [], ◌∷◌, ◌++◌, map, arith,
}
use cmsc125_lab.Sched.EventQueue.{walks_past, insert_event, enqueue_event}
use cmsc125_lab.Sched.MlfqQueue.{MlfqQueue, all_processes, boosted_levels, mlfq_priority_boost}
use cmsc125_lab.Sched.MlfqQueue.Levels.{
  all_processes-boosted, cleared, ClearedIf, mlfq_priority_boost-Boosted,
}
use cmsc125_lab.Sched.Process.{Process, Store, Event, construct_event}
use cmsc125_lab.Sched.Simulator.{
  event_type_of, run_length, after_run, dispatch, enqueue_waiting, dispatch_taken, dispatch_next,
  boost_waiting, boost_running, handle_priority_boost,
}
use cmsc125_lab.Sched.Simulator.Invariant.{is_cpu_event}
use cmsc125_lab.Sched.State.{SchedulerState, Algorithm, mlfq}
use cmsc125_lab.Sched.WaitingQueue.{WaitingQueue, mlfq_queue, queue_size, dequeue}
use cmsc125_lab.Sched.WaitingQueue.Contents.{contents, IsExact}
use cmsc125_lab.Sched.WaitingQueue.Contract.{enqueue-Enqueued, Dequeued, dequeue-Dequeued}

-- The events `after`, beside those of `before`, all in the order they had, are one end of a run: that of
-- the process that runs in `s'`.
pub record OneRunEndMore (before : List Event) (s' : SchedulerState) : Type 0 where
  pub run_end : Event
  pub kept_before : List Event
  pub kept_after : List Event
  pub is_run_end : is_cpu_event run_end.type ≡ true
  pub of_running : s'.running ≡ run_end.process
  pub were : before ≡ kept_before ++ kept_after
  pub are : s'.event_queue.events ≡ kept_before ++ run_end ∷ kept_after

-- Where an event is inserted.
record Inserted (e : Event) (before after : List Event) : Type 0 where
  first_part : List Event
  last_part : List Event
  before_parts : before ≡ first_part ++ last_part
  after_parts : after ≡ first_part ++ e ∷ last_part

Inserted-past :
    (e c : Event) (before after : List Event)
    → Inserted e before after
    → Inserted e (c ∷ before) (c ∷ after)
Inserted-past e c before after i = record {
  first_part = c ∷ i.first_part;
  last_part = i.last_part;
  before_parts = ap (λ (es : List Event). c ∷ es) i.before_parts;
  after_parts = ap (λ (es : List Event). c ∷ es) i.after_parts;
}

insert-Inserted :
    (arrange : Bool) (ps : Store) (e : Event) (es : List Event)
    → Inserted e es (insert_event arrange ps e es)
unfolding insert_event
insert-Inserted arrange ps e [] = record {
  first_part = [];
  last_part = [];
  before_parts = refl;
  after_parts = refl;
}
insert-Inserted arrange ps e (c ∷ es) = elim (Bool-cases (walks_past arrange ps e c)) [
  | inl past ↦ rw past (Inserted-past e c es _ (insert-Inserted arrange ps e es))
  | inr stop ↦
      rw stop
        (record { first_part = []; last_part = c ∷ es; before_parts = refl; after_parts = refl })
]

type-is_run_end : (p : Process) → is_cpu_event (event_type_of p) ≡ true
type-is_run_end p = ground arith

dispatch-OneRunEndMore :
    (arrange safety : Bool) (alg : Algorithm) (i : ℕ) (s : SchedulerState)
    → OneRunEndMore s.event_queue.events (dispatch arrange safety alg i s)
unfolding dispatch enqueue_event construct_event
dispatch-OneRunEndMore arrange safety alg i s =
    let p = after_run safety alg i s in
    let run_end =
      construct_event (s.current_time +ℤ run_length alg i s) (event_type_of p) (some i) in
    let parts = insert-Inserted arrange (update s.processes i p) run_end s.event_queue.events in
    record {
      run_end = run_end;
      kept_before = parts.first_part;
      kept_after = parts.last_part;
      is_run_end = type-is_run_end p;
      of_running = refl;
      were = parts.before_parts;
      are = parts.after_parts;
    }

taken-OneRunEndMore :
    (s : SchedulerState) (o : Option (ℕ × WaitingQueue))
    → 0 < length (contents s.waiting)
    → Dequeued s.waiting o
    → OneRunEndMore s.event_queue.events (dispatch_taken false false mlfq s o)
unfolding dispatch_taken
taken-OneRunEndMore s none h d = absurd (let e = ap length d in omega arith)
taken-OneRunEndMore s (some (i, w)) h d =
    dispatch-OneRunEndMore false false mlfq i (record s { waiting = w })

next-OneRunEndMore :
    (s : SchedulerState)
    → IsExact s.waiting
    → 0 < length (contents s.waiting)
    → OneRunEndMore s.event_queue.events (dispatch_next false false mlfq s)
unfolding dispatch_next
next-OneRunEndMore s v h =
    let busy : (queue_size s.waiting == 0) ≡ false = (let z = v.size_exact in ground arith) in
    rw busy (taken-OneRunEndMore s (dequeue s.waiting) h (dequeue-Dequeued s.waiting v))

requeued-OneRunEndMore :
    (r : ℕ) (s : SchedulerState)
    → IsExact s.waiting
    → OneRunEndMore s.event_queue.events (dispatch_next false false mlfq (enqueue_waiting r s))
unfolding enqueue_waiting
requeued-OneRunEndMore r s v =
    let e = enqueue-Enqueued s.processes s.waiting r v in
    next-OneRunEndMore (enqueue_waiting r s) e.exact (let l = e.adds.longer in omega arith)

abbrev emptied : List (List ℕ) → List (List ℕ)
emptied qs = map (λ (q : List ℕ). []) qs

length-emptied : (qs : List (List ℕ)) → length (emptied qs) ≡ length qs
length-emptied [] = refl
length-emptied (q ∷ qs) = ap suc (length-emptied qs)

length-boosted : (is : List ℕ) (qs : List (List ℕ)) → length (boosted_levels is qs) ≡ length qs
unfolding boosted_levels
length-boosted is [] = refl
length-boosted is (q ∷ qs) = ap suc (length-emptied qs)

boosted-IsExact :
    (ps : Store) (mq : MlfqQueue)
    → IsExact (mlfq_queue mq)
    → IsExact (mlfq_queue (mlfq_priority_boost ps mq).1)
unfolding mlfq_priority_boost
boosted-IsExact ps mq v =
    let l = v.levels_ok.level_count in
    let enough = v.levels_ok.some_level in
    record {
      size_exact =
          v.size_exact
          ∙ ap length (
              sym (
                all_processes-boosted (all_processes mq.level_queues) mq.level_queues
                  (omega arith)));
      levels_ok = record {
        some_level = v.levels_ok.some_level;
        level_count = length-boosted (all_processes mq.level_queues) mq.level_queues ∙ l;
      };
    }

-- Clearing a process does not give it any time.
cleared-remaining :
    (n : ℕ) (p p' : Process) → ClearedIf n p p' → p'.remaining_time ≡ p.remaining_time
cleared-remaining n p p' e = elim (Bool-cases (ltb 0 n)) [
  | inl b ↦
      ap (λ (q : Process). q.remaining_time)
        (subst (λ (c : Bool). p' ≡ (if c then cleared p else p)) b e)
  | inr b ↦
      ap (λ (q : Process). q.remaining_time)
        (subst (λ (c : Bool). p' ≡ (if c then cleared p else p)) b e)
]

-- An MLFQ state with the running process `r` and the queue `mq`.
abbrev pub running_mlfq : SchedulerState → ℕ → MlfqQueue → SchedulerState
running_mlfq s r mq = record s { running = some r; waiting = mlfq_queue mq }

boost_running-OneRunEndMore :
    (s : SchedulerState) (r : ℕ) (mq : MlfqQueue)
    → IsExact (mlfq_queue mq)
    → pos 0 <ℤ (s.processes r).remaining_time
    → OneRunEndMore s.event_queue.events (boost_running mlfq r (running_mlfq s r mq))
unfolding boost_running boost_waiting
boost_running-OneRunEndMore s r mq v h =
    let boosted =
      mlfq_priority_boost-Boosted s.processes mq
        (let l = v.levels_ok.level_count in let n = v.levels_ok.some_level in omega arith) in
    let same =
      cleared-remaining (count r (all_processes mq.level_queues)) (s.processes r)
        ((mlfq_priority_boost s.processes mq).0 r) (boosted.reset_queued r) in
    let unfinished : ltb_ℤ (pos 0) ((mlfq_priority_boost s.processes mq).0 r).remaining_time
        ≡ true =
      rw same (ground arith) in
    rw unfinished (requeued-OneRunEndMore r _ (boosted-IsExact s.processes mq v))

-- With an exact MLFQ queue, a boost while a process with time left runs leaves every pending event in the event queue as it is and
-- in its order, so also the end of the interrupted run, and adds one event: the end of a run of the
-- process that runs then.
pub boost-OneRunEndMore :
    (s : SchedulerState) (r : ℕ) (mq : MlfqQueue)
    → IsExact (mlfq_queue mq)
    → pos 0 <ℤ (s.processes r).remaining_time
    → OneRunEndMore s.event_queue.events (handle_priority_boost mlfq (running_mlfq s r mq))
unfolding handle_priority_boost
boost-OneRunEndMore s r mq v h =
    let unfinished : eqb_ℤ (s.processes r).remaining_time (pos 0) ≡ false = ground arith in
    rw unfinished (boost_running-OneRunEndMore s r mq v h)
