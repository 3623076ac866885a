-- ===== src/Scheduler.antt =====
-- internal/scheduler: the job and run tables, claiming, finishing, recovery, and the loop above them.
pub mod Timestamps
pub mod Types
pub mod Normalize
pub mod Recurrence
pub mod Store
pub mod Claim
pub mod Sound
pub mod Grants
pub mod Ended
pub mod Gate
pub mod Loop
mod Examples
