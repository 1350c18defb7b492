-- ===== src/Delivery/Worker/Races.antt =====
-- Two workers on one row: the claim of the first was reset as stale and taken over by the second.
use unith_task.Runtime.{Runtime}
use unith_task.Delivery.Claim.{Worker}
