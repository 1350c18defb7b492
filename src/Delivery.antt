-- ===== src/Delivery.antt =====
-- app/delivery: the worker that sends claimed attempts to the subscribers.
pub mod Signing
pub mod Backoff
pub mod Sender
pub mod Claim
pub mod Worker
pub mod Client
pub mod Lifecycle
