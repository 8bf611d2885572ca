-- ===== src/Geotask.antt =====
-- geonexus/geotask: tasks, their state machine, store, dependency graph and scheduler.
pub mod Model
pub mod Machine
pub mod Events
pub mod Store
pub mod Graph
pub mod Scheduler
pub mod Runner
