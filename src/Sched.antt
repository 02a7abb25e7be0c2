-- ===== src/Sched.antt =====
-- The event-driven CPU scheduling simulator, lab_2/schedsim-2.
pub mod Process
pub mod EventQueue
pub mod Chain
pub mod RrQueue
pub mod MlfqConfig
pub mod MlfqQueue
pub mod WaitingQueue
pub mod State
pub mod Algorithms
pub mod Simulator
pub mod Workload
pub mod Options
pub mod Compare
pub mod Main
mod Tests
