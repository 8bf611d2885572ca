-- ===== src/Cafe.antt =====
-- geonexus/cafe: tasks that are pushed down to the workers that hold the data.
pub mod Protocol
pub mod Central
pub mod Routing
pub mod Dispatch
mod Tests
