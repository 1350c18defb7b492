-- ===== src/Consumer.antt =====
-- app/consumer/rabbitmq.py: the message handler, the retry around the provider, the reconciler.
pub mod Intake
pub mod Retry
pub mod Handler
pub mod Reconciler
pub mod Service
pub mod Feed
pub mod Supervision
