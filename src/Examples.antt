-- ===== src/Examples.antt =====
-- The theorems at work on small concrete inputs.
mod Data
mod Delivering
mod Counting
mod Consuming
mod Reconciling
mod Publishing
mod Serving
mod Processes
mod Starting
mod Sending
mod Requests
mod Racing
