-- ===== src/Portfolio.antt =====
-- services/portfolio-service: the tables that it changes, and the transactions on them.
pub mod Database
pub mod Consumer
pub mod Atomic
pub mod Settlement
pub mod Ledger
pub mod Pages
pub mod Positions
pub mod Owner
pub mod Route
pub mod Handlers
pub mod Cover
pub mod Effect
pub mod Release
pub mod Validate
