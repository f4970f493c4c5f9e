-- ===== src/Graph.antt =====
-- The incident graph: backend/app/engines/graph/client.py, the in-memory client.
pub mod Client
pub mod Adjacency
pub mod Reach
pub mod Merge
pub mod Campaigns
pub mod Cases
pub mod Tests
