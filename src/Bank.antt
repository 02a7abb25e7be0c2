-- ===== src/Bank.antt =====
-- lab_3: the bank, its buffer pool and its transactions.
pub mod Accounts
pub mod BufferPool
pub mod Transaction
pub mod Threads
pub mod Parser
pub mod Options
pub mod Reports
mod Tests
