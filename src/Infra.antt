-- ===== src/Infra.antt =====
-- internal/infra: the connections of the program to the outside, and internal/transport/http/probe.
pub mod Outside
pub mod Logging
pub mod Ports
pub mod Duration
pub mod Clock
pub mod MongoDb
pub mod Telemetry
pub mod System
pub mod Init
