-- ===== src/System/Tables.antt =====
-- What the transactions do to the rows of claims that are held, and to primary keys.
use unith_task.Prelude.{
  ℕ, ◌-◌, ◌≡◌, refl, sym, ◌∙◌, ap, inl, inr, ◌⊎◌, String, true, false, some, arith, ◌==◌, ==_iff,
  Option-cases, Bool-cases,
}
use unith_task.Prelude.Result.{Result, ok, raised, Result-cases}
use unith_task.Config.{Settings, minutes}
use unith_task.Schemas.{SubscriberCreate, SubscriberUpdate}
use unith_task.Db.{DeliveryAttempt, Database, in_flight, has_id, find_attempt}
use unith_task.Db.Keys.{HasKeys, Apart-update_rows}
use unith_task.Db.Table.{find_row-append}
use unith_task.Db.Lookup.{find_attempt-update, find_attempt-update_id}
use unith_task.Delivery.Lifecycle.{Stage, stage_of}
use unith_task.Delivery.Claim.{Claimed, update_attempts, is_stale, reset_row, reset_stale_in_flight}
use unith_task.Delivery.Worker.Frame.{Effect}
use unith_task.Consumer.Service.Attempts.{Appends}
use unith_task.Api.Deliveries.{is_retryable, retried_row, retry_delivery}
use unith_task.Api.Subscribers.{get_or_404, create_subscriber, patch_row, delete_subscriber}
use unith_task.System.{IsRecent}

-- The row of a claim is in flight, with the count that the claim read.
abbrev pub IsHeld : Database → Claimed → Type 0
IsHeld db c =
    (a : DeliveryAttempt) × (find_attempt c.attempt.id db ≡ some a)
    × (stage_of a ≡ (in_flight, c.attempt.attempt_count))

pub IsHeld-same :
    (db db' : Database) (c : Claimed)
    → find_attempt c.attempt.id db' ≡ find_attempt c.attempt.id db
    → IsHeld db c
    → IsHeld db' c
IsHeld-same db db' c e (a, found, st) = (a, e ∙ found, st)

pub find_attempt-Appends :
    (i : ℕ) (db db' : Database) {a : DeliveryAttempt}
    → Appends db.delivery_attempts db'.delivery_attempts
    → find_attempt i db ≡ some a
    → find_attempt i db' ≡ some a
unfolding find_attempt
find_attempt-Appends i db db' h found =
    rw h.extended (rw (find_row-append (has_id i) db.delivery_attempts h.added) (rw found refl))

-- The tables of attempts agree.
pub find_attempt-table :
    (i : ℕ) (db db' : Database)
    → db'.delivery_attempts ≡ db.delivery_attempts
    → find_attempt i db' ≡ find_attempt i db
unfolding find_attempt
find_attempt-table i db db' e = rw e

pub HasKeys-table :
    (db db' : Database) → db'.delivery_attempts ≡ db.delivery_attempts → HasKeys db → HasKeys db'
HasKeys-table db db' e h = rw e h

pub Effect-HasKeys :
    (id : ℕ) (db db' : Database) (r : Result (Unit {0}))
    → Effect id db r db'
    → HasKeys db
    → HasKeys db'
Effect-HasKeys id db db' (raised e) h k = rw h k
Effect-HasKeys id db db' (ok x) h k =
    rw h.written
      (Apart-update_rows (has_id id) h.change db.delivery_attempts (λ x. (h.keeps x).same_id) k)

module _ (s : Settings) (now : ℕ) (db : Database) where
  pub reset-HasKeys : HasKeys db → HasKeys (reset_stale_in_flight s now db)
  unfolding reset_stale_in_flight
  reset-HasKeys k = Apart-update_rows _ (reset_row now) db.delivery_attempts (λ a. refl) k

  -- The clean-up passes by a row that is recent.
  pub reset-IsHeld :
      (c : Claimed)
      → IsRecent (now - minutes s.delivery_stale_in_flight_minutes) db c
      → IsHeld db c
      → IsHeld (reset_stale_in_flight s now db) c
  unfolding reset_stale_in_flight
  reset-IsHeld c recent (a, found, st) = (
    a,
    ground (
      arith,
      find_attempt-update c.attempt.id (is_stale (now - minutes s.delivery_stale_in_flight_minutes))
          (reset_row now) db (λ x. refl),
      found,
      recent a found,
    ),
    st,
  )

-- A retry leaves the table alone, or makes one dead or failed row pending.
pub retry_cases :
    (id now updated : ℕ) (db : Database)
    → ((retry_delivery id now updated db).1 ≡ db)
      ⊎ ((a : DeliveryAttempt) × (find_attempt id db ≡ some a)
          × (is_retryable a.status ≡ true)
          × ((retry_delivery id now updated db).1
              ≡ update_attempts (has_id id) (retried_row now updated) db))
unfolding retry_delivery
retry_cases id now updated db = elim (Option-cases (find_attempt id db)) [
  | inl gone ↦ inl (rw (gone, retry_delivery))
  | inr (a, found) ↦ elim (Bool-cases (is_retryable a.status)) [
    | inl hit ↦ inr (a, found, hit, rw (found, retry_delivery, hit))
    | inr miss ↦ inl (rw (found, retry_delivery, miss))
  ]
]

pub retry-HasKeys :
    (id now updated : ℕ) (db : Database) → HasKeys db → HasKeys (retry_delivery id now updated db).1
retry-HasKeys id now updated db k = elim (retry_cases id now updated db) [
  | inl same ↦ rw same k
  | inr (a, found, hit, e) ↦
      rw e
        (Apart-update_rows (has_id id) (retried_row now updated) db.delivery_attempts (λ x. refl) k)
]

-- A retry passes by a row that is in flight.
pub retry-IsHeld :
    (id now updated : ℕ) (db : Database) (c : Claimed)
    → IsHeld db c
    → IsHeld (retry_delivery id now updated db).1 c
retry-IsHeld id now updated db c (a, found, st) = elim (retry_cases id now updated db) [
  | inl same ↦ rw same (a, found, st)
  | inr (b, other, hit, e) ↦ elim (Bool-cases (c.attempt.id == id)) [
    | inl eq ↦
        let same : some a ≡ some b =
          sym found ∙ ap (λ j. find_attempt j db) ((==_iff c.attempt.id id).0 eq) ∙ other in
        let a_b : a ≡ b = cc same in
        let fly : a.status ≡ in_flight = ap (λ (q : Stage). q.0) st in
        let no : is_retryable a.status ≡ false = rw fly refl in
        absurd (cc (no, hit, ap (λ (q : DeliveryAttempt). is_retryable q.status) a_b))
    | inr ne ↦ (
      a,
      ap (find_attempt c.attempt.id) e
          ∙ ground (
            arith,
            find_attempt-update_id c.attempt.id id (retried_row now updated) db (λ x. refl),
            found,
          ),
      st,
    )
  ]
]

-- The requests on subscribers.
pub create_subscriber-attempts :
    (id : ℕ) (secret : String) (now : ℕ) (body : SubscriberCreate) (db : Database)
    → (create_subscriber id secret now body db).1.delivery_attempts ≡ db.delivery_attempts
unfolding create_subscriber
create_subscriber-attempts id secret now body db = refl

pub patch_row-attempts :
    (id : ℕ) (body : SubscriberUpdate) (now : ℕ) (db : Database)
    → (patch_row id body now db).1.delivery_attempts ≡ db.delivery_attempts
unfolding patch_row
patch_row-attempts id body now db = elim (Result-cases (get_or_404 id db)) [
  | inl (x, e) ↦ rw (e, patch_row)
  | inr (x, e) ↦ rw (e, patch_row)
]

pub delete_subscriber-attempts :
    (id now : ℕ) (db : Database)
    → (delete_subscriber id now db).1.delivery_attempts ≡ db.delivery_attempts
unfolding delete_subscriber
delete_subscriber-attempts id now db = elim (Result-cases (get_or_404 id db)) [
  | inl (x, e) ↦ rw (e, delete_subscriber)
  | inr (x, e) ↦ rw (e, delete_subscriber)
]
