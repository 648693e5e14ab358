-- ===== src/Core.antt =====
-- Processes (src/kernel/core).
pub mod Sched
pub mod Waitq
pub mod Process
pub mod Cred
pub mod Jobs
pub mod Signal
pub mod Fork
pub mod Life
mod Tests
