-- ===== src/Graph.antt =====
-- internal/graph: the service that loads sealed evidence into a graph and answers queries on it.
pub mod Store
pub mod Writer
pub mod Parser
pub mod Loader
pub mod Evidence
pub mod Memory
