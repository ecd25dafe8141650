-- ===== src/MatchingService.antt =====
-- services/matching-engine: the database, the consumer of commands and the publisher of the outbox.
pub mod Database
pub mod Consumer
pub mod Atomic
pub mod Persist
pub mod Effect
pub mod Outbox
pub mod Publisher
pub mod Rows
pub mod Delivered
pub mod Delivery
pub mod AtLeastOnce
pub mod Progress
pub mod Retry
pub mod Recovery
pub mod Startup
pub mod Rollback
