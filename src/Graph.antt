-- ===== src/Graph.antt =====
-- autoweave/graph: projections of events into a graph of entities.
pub mod Projection
mod Examples
