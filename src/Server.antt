-- ===== src/Server.antt =====
-- The server: the projection of runs from their events, and the delivery of pushes.
pub mod Enums
pub mod Rows
pub mod Accounts
pub mod Database
pub mod Payload
pub mod Quota
pub mod RateLimit
pub mod Outbox
pub mod Notify
pub mod Schedule
pub mod Ingest
pub mod Apns
pub mod Outcome
pub mod Delivery
pub mod Retention
pub mod Auth
pub mod Lifecycle
pub mod Pairing
pub mod Runs
pub mod Hooks
pub mod Devices
pub mod Activities
pub mod History
pub mod Snapshot
