-- ===== src/Bridge.antt =====
-- pc_side/lnc_bridge: the gateway between the LNC's serial link and the core's TCP link.
pub mod Server
pub mod Relay
