-- ===== src/Examples.antt =====
-- Concrete runs of the model, at which the theorems apply.
mod Data
mod Plmns
mod Gnbs
mod Resources
mod Ues
mod Tunnels
mod Sidfs
mod Scenarios
