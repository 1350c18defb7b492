-- ===== src/System/Races.antt =====
-- A retry request that a claim overtakes.
use unith_task.Prelude.{ℕ, ◌≤◌, ◌≡◌, refl, true, some, List, map, arith}
use unith_task.Db.{DeliveryAttempt, Database, in_flight, find_attempt}
use unith_task.Db.Table.{IsScan}
use unith_task.Db.Lookup.{find_attempt_id, find_attempt-update_id}
use unith_task.Delivery.Lifecycle.{stage}
use unith_task.Delivery.Claim.{member, is_claimable, claim_row, claim_batch}
use unith_task.Delivery.Worker.Batch.Claims.{claimed_id, claim_batch_lem}
use unith_task.Api.Deliveries.{is_retryable, retried_row, retry_write}

-- A retry request reads a dead or failed row; before it commits, a worker's claim takes the row. The
-- commit asks for the id alone: the row, which the worker holds in flight, is pending again, and any
-- worker can claim it once more, from the request's time on.
pub retry_overtaken :
    (scan : ℕ → List DeliveryAttempt → List DeliveryAttempt)
    → IsScan scan
    → (id claimed now updated later : ℕ) (db : Database) {a : DeliveryAttempt}
    → find_attempt id db ≡ some a
    → is_retryable a.status ≡ true
    → let (cs, held) = claim_batch scan claimed db in
      member id (map claimed_id cs) ≡ true
      → now ≤ later
      → (stage id held ≡ some (in_flight, a.attempt_count))
        × ((b : DeliveryAttempt) × (find_attempt id (retry_write id now updated held) ≡ some b)
            × (is_claimable later b ≡ true))
retry_overtaken scan ok_scan id claimed now updated later db {a} found retryable taken le =
    let held = (claim_batch scan claimed db).1 in
    let row : find_attempt id held ≡ some (claim_row claimed a) = ground (
      arith,
      (claim_batch_lem scan ok_scan claimed id db).2,
      found,
      find_attempt_id id db found,
      taken,
    ) in
    (
      rw row refl,
      (
        retried_row now updated (claim_row claimed a),
        ground
            (arith, find_attempt-update_id id id (retried_row now updated) held (λ x. refl), row),
        ground arith,
      ),
    )
