-- ===== src/Geotask/Graph/Topo.antt =====
-- geotask/graph.py, `_topological_order`: Kahn's algorithm against the order that it promises.
mod Sweep
mod Loop
pub mod Order
