-- ===== src/Delivery/Claim.antt =====
-- The rows that app/delivery/worker.py resets and claims: `_reset_stale_in_flight` and the first
-- transaction of `_process_batch`. What one delivery reads from outside is its `Env`.
use unith_task.Prelude.{
  ℕ, suc, ◌-◌, String, Bool, false, ◌&&◌, ◌||◌, Option, some, List, [], ◌∷◌, map, ◌==◌, leb, ltb,
  if◌then◌else◌, str_eq,
}
use unith_task.Config.{Settings, minutes}
use unith_task.Db.{
  IdempotencyKey, DeliveryStatus, pending, in_flight, DeliveryAttempt, Database, same_status,
  find_key,
}
use unith_task.Db.Table.{where_rows, update_rows}
use unith_task.Delivery.Sender.{Request, HttpOutcome}

-- The counters of app/metrics.py that the worker moves, the failures by label, and the durations that
-- its histogram was given, in milliseconds.
pub record DeliveryMetrics : Type 0 where
  pub attempted : ℕ
  pub succeeded : ℕ
  pub failures : List (String × ℕ)
  pub dead_letters : ℕ
  pub durations : List ℕ

abbrev pub inc_label : String → List (String × ℕ) → List (String × ℕ)
inc_label l [] = (l, 1) ∷ []
inc_label l ((k, n) ∷ rest) = if str_eq k l then (k, suc n) ∷ rest else (k, n) ∷ inc_label l rest

pub record Worker : Type 0 where
  pub database : Database
  pub metrics : DeliveryMetrics

-- What one delivery reads from outside: the client, the time of the request and of the write
-- behind it, how long the request took, and random.uniform.
pub record Env : Type 0 where
  pub http : Request → HttpOutcome
  pub sent_at : ℕ
  pub now : ℕ
  pub elapsed : ℕ
  pub uniform : ℕ → ℕ → ℕ

-- An attempt as the claim loaded it, with its idempotency key.
pub record Claimed : Type 0 where
  pub attempt : DeliveryAttempt
  pub idempotency_key : Option IdempotencyKey

-- UPDATE delivery_attempts SET … WHERE …
abbrev pub update_attempts :
    (DeliveryAttempt → Bool) → (DeliveryAttempt → DeliveryAttempt) → Database → Database
update_attempts p f db = record db { delivery_attempts = update_rows p f db.delivery_attempts }

-- `_reset_stale_in_flight`; the column's onupdate moves `updated_at`.
abbrev pub is_stale : ℕ → DeliveryAttempt → Bool
is_stale cutoff a = same_status a.status in_flight && ltb a.updated_at cutoff

abbrev pub reset_row : ℕ → DeliveryAttempt → DeliveryAttempt
reset_row now a = record a {
  status = DeliveryStatus.failed;
  last_error = some "reset by worker startup (stale in_flight)";
  next_attempt_at = now;
  updated_at = now;
}

unfoldable pub reset_stale_in_flight : Settings → ℕ → Database → Database
reset_stale_in_flight s now =
    let cutoff = now - minutes s.delivery_stale_in_flight_minutes in
    update_attempts (is_stale cutoff) (reset_row now)

-- The WHERE clause of the claim.
abbrev pub is_claimable : ℕ → DeliveryAttempt → Bool
is_claimable now a =
    (same_status a.status pending || same_status a.status DeliveryStatus.failed)
    && leb a.next_attempt_at now

abbrev pub member : ℕ → List ℕ → Bool
member i [] = false
member i (j ∷ js) = i == j || member i js

abbrev pub claim_row : ℕ → DeliveryAttempt → DeliveryAttempt
claim_row now a = record a { status = in_flight; updated_at = now }

abbrev pub attempt_id : DeliveryAttempt → ℕ
attempt_id a = a.id

-- selectinload of the attempt's idempotency key.
abbrev pub load : Database → DeliveryAttempt → Claimed
load db a = record { attempt = a; idempotency_key = find_key a.message_id db }

-- The first half of `_process_batch`, up to its commit.
unfoldable pub claim_batch :
    (ℕ → List DeliveryAttempt → List DeliveryAttempt) → ℕ → Database → List Claimed × Database
claim_batch scan now db =
    let attempts = scan 50 (where_rows (is_claimable now) db.delivery_attempts) in
    let ids = map attempt_id attempts in
    (map (load db) attempts, update_attempts (λ a. member a.id ids) (claim_row now) db)
