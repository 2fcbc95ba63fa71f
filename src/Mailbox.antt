-- ===== src/Mailbox.antt =====
-- internal/mailbox/mailbox.go: named queues with leases, and topics with prefix subscriptions.
pub mod Defs
pub mod Index
pub mod Persist
pub mod Boxes
pub mod Expiry
pub mod Queues
pub mod Leases
pub mod Topics
pub mod Life
pub mod Moves
pub mod Dedup
pub mod Fairness
pub mod Views
pub mod Rejecting
pub mod Placing
pub mod Redelivery
pub mod Expiring
pub mod Office
pub mod Durable
pub mod Restart
pub mod Shutdown
pub mod Retries
pub mod Taking
pub mod Caching
pub mod Publishing
pub mod Replaying
