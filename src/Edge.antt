-- ===== src/Edge.antt =====
-- The Edge side of the agent (edge/).
pub mod Stack
pub mod Key
pub mod Scheduler
pub mod Poll
pub mod Setup
pub mod Client
