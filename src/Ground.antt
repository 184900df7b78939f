-- ===== src/Ground.antt =====
-- The link between the central computer and the ground station.
pub mod Records
pub mod Requests
pub mod Replies
pub mod Queries
pub mod Session
