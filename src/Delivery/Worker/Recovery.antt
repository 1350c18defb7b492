-- ===== src/Delivery/Worker/Recovery.antt =====
-- `_reset_stale_in_flight`.
use mathlib.Core.Option
use unith_task.Prelude.{
  ℕ, ◌-◌, ◌<◌, ◌≤◌, ◌≡◌, refl, true, false, some, List, [], ◌∷◌, arith, All, if◌then◌else◌,
}
use unith_task.Config.{Settings, minutes}
use unith_task.Db.{in_flight, DeliveryAttempt, Database, find_attempt}
use unith_task.Db.Table.{All-update_rows_to}
use unith_task.Db.Lookup.{find_attempt-update}
use unith_task.Delivery.Claim.{is_stale, reset_row, is_claimable, reset_stale_in_flight}

All-true : {A : Type 0} (xs : List A) → All (λ (x : A). Unit {0}) xs
All-true [] = tt
All-true (x ∷ xs) = (tt, All-true xs)

-- After a clean-up no in-flight row is older than the threshold. The rows that were are failed, due
-- at once, and have their attempt count; every other row is as it was, and so are the other tables.
pub reset_stale_in_flight_lem :
    (s : Settings) (now i : ℕ) (db : Database)
    → let cutoff = now - minutes s.delivery_stale_in_flight_minutes in
      let db' = reset_stale_in_flight s now db in
      All (λ a. is_stale cutoff a ≡ false) db'.delivery_attempts
      × (find_attempt i db'
          ≡ Option.map (λ a. if is_stale cutoff a then reset_row now a else a) (find_attempt i db))
      × (db'.subscribers ≡ db.subscribers)
      × (db'.idempotency_keys ≡ db.idempotency_keys)
unfolding reset_stale_in_flight
reset_stale_in_flight_lem s now i db =
    let cutoff = now - minutes s.delivery_stale_in_flight_minutes in
    (
      All-update_rows_to (λ a. Unit {0}) _ (is_stale cutoff) (reset_row now) db.delivery_attempts
          (λ a _. ground arith) (All-true db.delivery_attempts),
      find_attempt-update i (is_stale cutoff) (reset_row now) db (λ a. refl),
      refl,
      refl,
    )

-- A row that was in flight since before the threshold can be claimed at once behind a clean-up,
-- and has its old attempt count.
pub stale-reclaimed :
    (s : Settings) (now later i : ℕ) (db : Database) {a : DeliveryAttempt}
    → find_attempt i db ≡ some a
    → a.status ≡ in_flight
    → a.updated_at < now - minutes s.delivery_stale_in_flight_minutes
    → now ≤ later
    → (b : DeliveryAttempt) × (find_attempt i (reset_stale_in_flight s now db) ≡ some b)
      × (is_claimable later b ≡ true)
      × (b.attempt_count ≡ a.attempt_count)
stale-reclaimed s now later i db {a} e st old le =
    (reset_row now a, ground (arith, (reset_stale_in_flight_lem s now i db).1), ground arith, refl)
