-- ===== src/Scenario.antt =====
-- The scenarios of PacketRusher/internal/common/tools/tools.go.
pub mod Numbers
pub mod Msin
pub mod Simulation
pub mod Gnbs
