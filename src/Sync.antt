-- ===== src/Sync.antt =====
-- The read side (backend/services/sync-worker/internal/application/service.go): events and rows
-- become documents of a search store, Elasticsearch, whose answers are a parameter. The loop that
-- reads them is that of infrastructure/messaging/kafka_consumer.go.
pub mod Search
pub mod Service
pub mod Mirror
pub mod Effects
pub mod Calls
pub mod Deliveries
pub mod Present
pub mod Consumer
pub mod Skipping
pub mod Replay
pub mod States
pub mod NotFound
pub mod Order
