-- ===== src/Scheduler/Sound.antt =====
-- What holds of the scheduler's tables between two transactions.
pub mod Runs
pub mod Methods
pub mod Recovery
pub mod Claims
pub mod Steps
