-- ===== src/Core.antt =====
-- src/core: what a mod defines, tasks, connecting, workers.
pub mod Mod
pub mod Connect
pub mod Frame
pub mod Worker
pub mod Scheduler
