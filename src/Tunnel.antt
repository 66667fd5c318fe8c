-- ===== src/Tunnel.antt =====
-- The command line tool for the rules of a GTP tunnel: PacketRusher/internal/cmd/gogtp5g-tunnel, a
-- module per file of it and one for the attributes that it sends.
pub mod Attributes
pub mod Parser
pub mod Oid
pub mod FlowDesc
pub mod Far
pub mod Pdr
pub mod Qer
pub mod Commands
pub mod Tree
