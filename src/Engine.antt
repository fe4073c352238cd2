-- ===== src/Engine.antt =====
-- The engine's transaction boundary and its outbox (engine.go, engine_metrics.go).
pub mod Metrics
pub mod Codec
pub mod Outbox
pub mod Relay
pub mod Tx
