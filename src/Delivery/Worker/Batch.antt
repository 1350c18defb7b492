-- ===== src/Delivery/Worker/Batch.antt =====
-- Claims and batches.
pub mod Claims
pub mod Runs
