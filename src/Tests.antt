-- ===== src/Tests.antt =====
-- Concrete databases and runs of the model over them.
mod Fixtures
mod Ingestion
mod Delivery
mod Outbox
mod Queue
mod Limits
mod Retention
mod Lifecycle
mod Accounts
mod History
