-- ===== src/Lib.antt =====
-- A verification library for the three programs of this repository: the CPU scheduling simulator of
-- lab_2/schedsim-2, the bank of lab_3, and the shell of lab_1. They share no code.
--
-- Base: names shared by all modules; native numbers, integers over them for the C types int and
-- long long, Boolean tests, lists measured by native numbers. Arithmetic is exact: it is
-- assumed that no amount, time or counter reaches the limits of its C type. Where the source
-- converts a long to an int, the model does so too.
--
-- Scan: the conversions of sscanf that lab_2 and lab_3 use, and of a long to an int; Numerals, the
-- printing of numbers, and Narrowing, what an int keeps.
--
-- Sched models lab_2/schedsim-2. main builds a SchedulerState and one waiting queue, and calls
-- simulate_scheduler, which enqueues an arrival for each process and then handles events in the
-- order of their times; a handler asks the algorithm for a run time and enqueues the end of that
-- run. A Process* is the index of the process; `Store` is what the pointers lead to.
--   Sched/Process: includes/objects/*.h and src/objects/*.c.
--   Sched/EventQueue: src/data-structures/event-queue.c, with Order and Counts on its lists.
--   Sched/Chain: the queues of FCFS, SJF and STCF (src/data-structures/fcfs-queue.c, sjf-queue.c,
--     stcf-queue.c), with Ordered on their order.
--   Sched/RrQueue, Sched/MlfqQueue: src/data-structures/rr-queue.c, mlfq-queue.c.
--   Sched/MlfqConfig: includes/mlfq-config.h and src/mlfq-config.c, the loader line by line; Loading
--     is about what it returns, Lines and Printing about reading back what has been written.
--   Sched/WaitingQueue: includes/data-structures/process-queue-adt.h, as a sum of the five queues;
--     WaitingQueue/Contract, on Contents, is the interface that the simulator's proofs use; Serving
--     is about the order of round robin.
--   Sched/State: includes/scheduler.h and append_gantt_entry of src/gantt.c.
--   Sched/Algorithms: src/schedulers/*.c.
--   Sched/Simulator: src/simulator.c and calculate_metrics of src/metrics.c. Invariant states what
--     holds between two events, Steps and Handlers are about keeping it (with Queued for the queues), Measure,
--     Lowering and Termination about the number of rounds, SameJobs and Frame about what no round
--     touches, Completion about whole runs,
--     and Boost about the events of a priority boost.
--   Sched/Workload: src/scheduler.c, the rows of a file and the items of --processes, with Bounds on
--     what they give and Printing on reading back.
--   Sched/Options: src/command.c and the choice of the algorithm in src/main.c, with Choice on what
--     is chosen and Errors on what is refused. Sched/Main: main as a whole.
--   Sched/Compare: src/compare.c, with Runs and Totals on its runs and Switches on its count.
-- The event loop runs on fuel: enough is more than two rounds for each unit of burst time and three
-- for each process (Completion). The loop that schedules the
-- boosts has a fuel of one more than its last time, as the period is positive.
-- Not modelled: the averages as floating-point numbers, of which the sums are modelled, and all
-- printing. What getopt_long, fopen and fgets return is an argument, as is what uninitialised
-- variables hold. lab_2/schedsim holds unresolved merge conflicts and is left out. The invariant
-- leaves out MLFQ, where the ends of several runs may be pending.
--
-- Bank models lab_3. Each transaction is a thread that loads accounts into the buffer pool, calls
-- the bank and waits for the next tick.
--   Bank/Accounts: src/bank.c and calculate_total_balance of src/main.c; Conservation has the
--     operations one by one, Interleaving their critical sections in any order.
--   Bank/BufferPool: src/buffer_pool.c; a call that would wait for the semaphore returns none.
--   Bank/Transaction: src/transaction.c and wait_until_tick of src/timer.c, for one transaction; the
--     ticks that pass before each reading of the clock are an argument.
--   Bank/Threads: src/transaction.c again, section by section, for any number of threads that
--     share the globals, with the ticks of src/timer.c. A schedule is a list of turns; a blocked
--     thread has no turn; a deposit or a withdrawal takes two, for the balance and for the reserve.
--     Holdings, Slots, Together and Schedules are about the slots held; Enabled and
--     Progress about threads that can be brought to their end; Waiting, Approach and Deadlock about
--     transfers that wait for each other; Dues, Sections and Money about the total that main compares.
--   Bank/Parser, Bank/Options: src/parser.c, the files and the command line. A write outside an
--     array is an outcome of its own.
--   Bank/Reports: the numbers of src/metrics.c and the conservation check of src/main.c.
-- Not modelled: the averages as floating-point numbers, and the log, which is output.
--
-- Shell models lab_1. main cleans up the background jobs, reads a command and interprets it.
--   Shell/Command: parser.c, from the line that fgets returns to a Command.
--   Shell/Jobs: the table of background jobs of interpreter.c. What waitpid answers is an argument;
--     the fuel of the clean-up is the number of jobs, as each round takes one.
--   Shell/Interpreter: the rest of interpreter.c, in the parent and in the child, and the loop of
--     mysh.c. What the system calls answer is a record of arguments for each round; Sessions is
--     about the table through any number of rounds.
-- Not modelled: what the programs that the shell starts do.
pub mod Base
pub mod Scan
pub mod Sched
pub mod Bank
pub mod Shell
