-- ===== src/Tests.antt =====
-- Runs of the model on concrete data.
pub mod Fixtures
pub mod Services
pub mod Documents
mod Repositories
pub mod Payments
mod Deliveries
pub mod Broker
pub mod Wiring
pub mod Matching
mod Gateway
pub mod Running
mod Telemetry
mod Liveness
