-- ===== src/Geotask/Graph/Cascade.antt =====
-- geotask/graph.py, `_cascade`: a failure reaches everything downstream, and nothing else.
pub mod Step
pub mod Queue
pub mod Loop
pub mod Failure
