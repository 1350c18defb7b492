-- ===== src/System/Liveness.antt =====
-- From every state an attempt whose event is stored and whose subscriber is live can be delivered.
use mathlib.Core.Option
use unith_task.Prelude.{
  ℕ, suc, ◌+◌, ◌-◌, ◌<◌, ◌≡◌, refl, ◌∙◌, ap, true, some, List, [], ◌∷◌, arith, All,
}
use unith_task.Config.{Settings, minutes}
use unith_task.Json.{Codec}
use unith_task.Runtime.{Runtime}
use unith_task.Db.{
  DeliveryStatus, pending, in_flight, delivered, dead, DeliveryAttempt, Database, has_id,
  find_attempt, find_key, find_subscriber,
}
use unith_task.Db.Keys.{HasKeys}
use unith_task.Db.Lookup.{find_attempt-update, find_attempt-update_id}
use unith_task.Delivery.Lifecycle.{stage_of}
use unith_task.Delivery.Claim.{Claimed, is_stale, reset_row, reset_stale_in_flight, update_attempts}
use unith_task.Api.Deliveries.{is_retryable, retried_row, retry_delivery}
use unith_task.System.{System, database_of, with_tables, clean_up, retry, start, later}
use unith_task.System.Tables.{reset-HasKeys, retry-HasKeys}
use unith_task.System.{IsRecent}
use unith_task.System.Delivering.{
  IsDeliverable, CanDeliver, CanDeliver-later, drop_all, claim_and_deliver,
}

All-none : (P : Claimed → Type 0) (held : List Claimed) → held ≡ [] → All P held
All-none P [] e = tt
All-none P (c ∷ cs) e = absurd cc

module _ (s : Settings) (codec : Codec) (rt : Runtime) where
  retry_hit :
      (i now updated : ℕ) (db : Database) {a : DeliveryAttempt}
      → find_attempt i db ≡ some a
      → is_retryable a.status ≡ true
      → (retry_delivery i now updated db).1
        ≡ update_attempts (has_id i) (retried_row now updated) db
  unfolding retry_delivery
  retry_hit i now updated db found hit = rw (found, retry_delivery, hit)

  reset_hit :
      (i now : ℕ) (db : Database) {a : DeliveryAttempt}
      → find_attempt i db ≡ some a
      → a.status ≡ in_flight
      → a.updated_at < now - minutes s.delivery_stale_in_flight_minutes
      → find_attempt i (reset_stale_in_flight s now db) ≡ some (reset_row now a)
  unfolding reset_stale_in_flight
  reset_hit i now db {a} found st old =
      let stale = is_stale (now - minutes s.delivery_stale_in_flight_minutes) in
      let hit : stale a ≡ true = rw st (ground arith) in
      ground (arith, find_attempt-update i stale (reset_row now) db (λ x. refl), found, hit)

  reset-tables :
      (now : ℕ) (db : Database)
      → let db' = reset_stale_in_flight s now db in
        (db'.idempotency_keys ≡ db.idempotency_keys) × (db'.subscribers ≡ db.subscribers)
  unfolding reset_stale_in_flight
  reset-tables now db = (refl, refl)

  -- The row behind an update that keeps what the delivery needs.
  changed-IsDeliverable :
      (i : ℕ) (db db' : Database) (d : IsDeliverable i db) (b : DeliveryAttempt)
      → find_attempt i db' ≡ some b
      → b.message_id ≡ d.row.message_id
      → b.subscriber_id ≡ d.row.subscriber_id
      → db'.idempotency_keys ≡ db.idempotency_keys
      → db'.subscribers ≡ db.subscribers
      → IsDeliverable i db'
  unfolding find_key find_subscriber
  changed-IsDeliverable i db db' d b found m sub keys subs = record {
    row = b;
    found = found;
    event = d.event;
    stored = rw (keys, m) d.stored;
    subscriber = d.subscriber;
    present = rw (subs, sub) d.present;
    live = d.live;
  }

  -- A dead row is retried, then sent.
  dead-CanDeliver :
      (i : ℕ) (v : System) (d : IsDeliverable i (database_of v))
      → v.held ≡ []
      → HasKeys (database_of v)
      → d.row.status ≡ dead
      → CanDeliver s codec rt i v
  dead-CanDeliver i v d idle keys st =
      let db = database_of v in
      let x = with_tables (retry_delivery i 0 0 db).1 v.held v in
      let written : (retry_delivery i 0 0 db).1 ≡ update_attempts (has_id i) (retried_row 0 0) db =
        retry_hit i 0 0 db {a = d.row} d.found (rw st refl) in
      let after : find_attempt i (database_of x) ≡ some (retried_row 0 0 d.row) = ground (
        arith,
        ap (find_attempt i) written,
        find_attempt-update_id i i (retried_row 0 0) db (λ a. refl),
        d.found,
      ) in
      let d' =
        changed-IsDeliverable i db (database_of x) d (retried_row 0 0 d.row) after refl refl
          (ap (λ (t : Database). t.idempotency_keys) written)
          (ap (λ (t : Database). t.subscribers) written) in
      CanDeliver-later s codec rt i (later start (retry i 0 0))
        (claim_and_deliver s codec rt i 0 x d' idle (retry-HasKeys i 0 0 db keys) (ground arith))

  -- A row that a crash left in flight is reset once it is old enough, then sent.
  lost-CanDeliver :
      (i : ℕ) (v : System) (d : IsDeliverable i (database_of v))
      → v.held ≡ []
      → HasKeys (database_of v)
      → d.row.status ≡ in_flight
      → CanDeliver s codec rt i v
  lost-CanDeliver i v d idle keys st =
      let db = database_of v in
      let now = suc d.row.updated_at + minutes s.delivery_stale_in_flight_minutes in
      let x = with_tables (reset_stale_in_flight s now db) v.held v in
      let after : find_attempt i (database_of x) ≡ some (reset_row now d.row) =
        reset_hit i now db {a = d.row} d.found st (omega arith) in
      let d' =
        changed-IsDeliverable i db (database_of x) d (reset_row now d.row) after refl refl
          (reset-tables now db).0 (reset-tables now db).1 in
      CanDeliver-later s codec rt i
        (later start (
          clean_up now (
            All-none (IsRecent (now - minutes s.delivery_stale_in_flight_minutes) db) v.held idle)))
        (claim_and_deliver s codec rt i now x d' idle (reset-HasKeys s now db keys) (ground arith))

  idle-CanDeliver :
      (i : ℕ) (v : System) (d : IsDeliverable i (database_of v))
      → v.held ≡ []
      → HasKeys (database_of v)
      → (st : DeliveryStatus) → d.row.status ≡ st
      → CanDeliver s codec rt i v
  idle-CanDeliver i v d idle keys pending e =
      claim_and_deliver s codec rt i d.row.next_attempt_at v d idle keys (rw e (ground arith))
  idle-CanDeliver i v d idle keys in_flight e = lost-CanDeliver i v d idle keys e
  idle-CanDeliver i v d idle keys delivered e =
      (v, start, (d.row.attempt_count, ap (Option.map stage_of) d.found ∙ rw e refl))
  idle-CanDeliver i v d idle keys DeliveryStatus.failed e =
      claim_and_deliver s codec rt i d.row.next_attempt_at v d idle keys (rw e (ground arith))
  idle-CanDeliver i v d idle keys dead e = dead-CanDeliver i v d idle keys e

  -- No attempt is stuck: from any state whose attempts have primary keys, whatever its workers
  -- hold, an attempt in any status whose event is stored and whose subscriber is live can still
  -- become delivered, by steps that the processes can take (crashes, the clean-up, a retry, a claim,
  -- a delivery that is answered 200).
  pub IsDeliverable-CanDeliver :
      (i : ℕ) (v : System)
      → HasKeys (database_of v)
      → IsDeliverable i (database_of v)
      → CanDeliver s codec rt i v
  IsDeliverable-CanDeliver i v keys d =
      CanDeliver-later s codec rt i (drop_all s codec rt v.held v refl)
        (idle-CanDeliver i (with_tables (database_of v) [] v) d refl keys d.row.status refl)
