-- ===== src/Ue.antt =====
-- The UE: PacketRusher/internal/control_test_engine/ue, a module per part.
pub mod State
pub mod Sessions
pub mod Auth
pub mod Encode
pub mod Trigger
pub mod Message
pub mod Handler
pub mod Dispatch
pub mod Manager
