-- ===== src/Gnb.antt =====
-- The simulated gNodeB: PacketRusher/internal/control_test_engine/gnb.
pub mod State
pub mod Amf
pub mod Ue
pub mod Pools
pub mod Ngap
pub mod Nas
