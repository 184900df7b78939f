-- ===== src/Fleet.antt =====
-- pc_side/oop_fleet: the fleet's submarines, in memory, and the menu that works on them.
pub mod Console
pub mod Link
pub mod Telemetry
pub mod Submarine
pub mod Registry
pub mod Operations
pub mod Menu
pub mod History
