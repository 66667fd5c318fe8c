-- ===== src/Sidf.antt =====
-- The concealment of the SUPI: PacketRusher/internal/common/sidf.
pub mod Regexp
pub mod Suci
pub mod Tbcd
pub mod Ecies
pub mod Conceal
pub mod Mobile
