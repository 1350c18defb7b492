-- ===== src/Api.antt =====
-- app/api: the endpoints.
pub mod Subscribers
pub mod Events
pub mod Deliveries
