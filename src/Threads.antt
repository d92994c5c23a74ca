-- ===== src/Threads.antt =====
-- The thread system: threads/thread.c and threads/synch.c of proj1.
pub mod State
pub mod Highest
pub mod Sched
pub mod Synch
pub mod Cond
pub mod Queues
mod Tests
