-- ===== src/Model.antt =====
-- The vocabulary of internal/simulation/model.
pub mod Types
pub mod Firewall
