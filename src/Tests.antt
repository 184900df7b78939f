-- ===== src/Tests.antt =====
-- The theorems at concrete inputs, and runs of the definitions.
pub mod Zeros
pub mod Frames
pub mod Fields
pub mod Bridges
pub mod Fleets
pub mod Grounds
pub mod Queries
pub mod Links
pub mod Stores
