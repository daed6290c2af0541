-- ===== src/Invariant.antt =====
-- What every event keeps: `State.Apply` of internal/simulation/state.go.
pub mod Clock
pub mod Refusal
pub mod Commands
pub mod Identifiers
pub mod Operations
pub mod Connections
pub mod Capacities
pub mod Catalog
pub mod Schedule
