-- ===== src/Delivery/Worker.antt =====
-- app/delivery/worker.py: `_deliver_attempt`, `_process_batch` and the jobs of `run`. A transaction
-- is a function of the database.
pub mod Outcome
pub mod Frame
pub mod Batch
pub mod Recovery
pub mod Jobs
pub mod Exhaustion
pub mod Stages
pub mod Races
pub mod Counters
use unith_task.Prelude.{
  ℕ, zero, suc, ◌+◌, ◌-◌, String, Bool, true, false, not, ◌&&◌, ◌||◌, Option, none, some, List, [],
  ◌∷◌, map, length, All, ◌≤◌, ◌≡◌, ◌==◌, leb, ltb, if◌then◌else◌, text_or, f_string, str, str_eq,
}
use unith_task.Prelude.Result.{Result, ok, raised, exception}
use unith_task.Config.{Settings, minutes}
use unith_task.Json.{Value, value_or}
use unith_task.Runtime.{Runtime}
use unith_task.Db.{
  Subscriber, IdempotencyKey, DeliveryStatus, pending, in_flight, delivered, dead, DeliveryAttempt,
  Database, same_status, is_live, has_id, find_key, find_subscriber,
}
use unith_task.Db.Table.{where_rows, update_rows}
use unith_task.Delivery.Backoff.{backoff}
use unith_task.Delivery.Sender.{Request, HttpOutcome, DeliveryResult, deliver}
use unith_task.Delivery.Claim.{
  DeliveryMetrics, inc_label, Worker, Env, Claimed, update_attempts, reset_stale_in_flight,
  claim_batch,
}

abbrev pub kill_row : ℕ → DeliveryAttempt → DeliveryAttempt
kill_row now a = record a {
  status = dead;
  last_error = some "subscriber inactive or deleted";
  updated_at = now;
}

-- f"HTTP {result.status_code}"
abbrev http_label : Option ℕ → String
http_label none = "HTTP None"
http_label (some code) = f_string ("HTTP " ∷ str code ∷ [])

-- str(result.status_code) if result.status_code else "timeout"
abbrev status_label : Option ℕ → String
status_label none = "timeout"
status_label (some code) = if code == 0 then "timeout" else str code

-- What the branches on the result choose.
pub record Verdict : Type 0 where
  pub new_status : DeliveryStatus
  pub next_attempt_at : ℕ
  pub last_error : Option String
  pub metrics : DeliveryMetrics

unfoldable pub judge : Settings → Env → ℕ → DeliveryResult → DeliveryMetrics → Verdict
judge s env new_attempt_count result metrics =
    let error_text = some (text_or result.error (http_label result.status_code)) in
    if result.success
    then record {
      new_status = delivered;
      next_attempt_at = env.now;
      last_error = none;
      metrics = record metrics { succeeded = suc metrics.succeeded };
    }
    else if leb s.delivery_max_attempts new_attempt_count
    then record {
      new_status = dead;
      next_attempt_at = env.now;
      last_error = error_text;
      metrics = record metrics { dead_letters = suc metrics.dead_letters };
    }
    else record {
      new_status = DeliveryStatus.failed;
      next_attempt_at = env.now + backoff s env.uniform new_attempt_count;
      last_error = error_text;
      metrics = record metrics {
        failures = inc_label (status_label result.status_code) metrics.failures;
      };
    }

-- The final UPDATE … WHERE id = attempt.id.
abbrev pub result_row : Env → ℕ → DeliveryResult → Verdict → DeliveryAttempt → DeliveryAttempt
result_row env new_attempt_count result v a = record a {
  status = v.new_status;
  attempt_count = new_attempt_count;
  last_attempt_at = some env.now;
  last_http_status = result.status_code;
  last_error = v.last_error;
  next_attempt_at = v.next_attempt_at;
  updated_at = env.now;
}

unfoldable pub record_result : Settings → Env → DeliveryAttempt → DeliveryResult → Worker → Worker
unfolding judge
record_result s env attempt result w =
    let count = attempt.attempt_count + 1 in
    let v = judge s env count result w.metrics in
    record {
      database = update_attempts (has_id attempt.id) (result_row env count result v) w.database;
      metrics = v.metrics;
    }

-- deliveries_attempted.inc(), and delivery_duration.observe(…)
abbrev pub attempting : DeliveryMetrics → DeliveryMetrics
attempting m = record m { attempted = suc m.attempted }

abbrev pub observe_delivery : Env → DeliveryMetrics → DeliveryMetrics
observe_delivery env m = record m { durations = env.elapsed ∷ m.durations }

finish :
    Settings → Env → DeliveryAttempt → Result DeliveryResult → Worker → Result (Unit {0}) × Worker
unfolding record_result
finish s env attempt (raised e) w = (raised e, w)
finish s env attempt (ok result) w = (
  ok tt,
  record_result s env attempt result (record w { metrics = observe_delivery env w.metrics }),
)

-- What `run` and its background task do: the clean-up, and a batch whose exception is logged.
pub data Job : Type 0 where
  reset : ℕ → Job
  batch : (ℕ → List DeliveryAttempt → List DeliveryAttempt) → ℕ → (ℕ → Env) → Job

module _ (s : Settings) (rt : Runtime) where
  -- The call of `deliver` and what follows it, for a subscriber that is live.
  send :
      Env
      → DeliveryAttempt
      → Option IdempotencyKey
      → Subscriber
      → Worker
      → Result (Unit {0}) × Worker
  unfolding finish
  send env attempt none sub w = (raised (exception "AttributeError"), w)
  send env attempt (some ik) sub w =
      let payload = value_or ik.enriched_payload ik.raw_payload in
      let result =
        deliver rt env.http attempt.id sub.endpoint sub.secret ik.event_type payload env.sent_at in
      finish s env attempt result (record w { metrics = attempting w.metrics })

  -- The check of the re-fetched subscriber.
  unfoldable pub dispatch : Env → Claimed → Option Subscriber → Worker → Result (Unit {0}) × Worker
  unfolding send
  dispatch env c none w = (
    ok tt,
    record w { database = update_attempts (has_id c.attempt.id) (kill_row env.now) w.database },
  )
  dispatch env c (some sub) w =
      if is_live sub then send env c.attempt c.idempotency_key sub w else (
        ok tt,
        record w { database = update_attempts (has_id c.attempt.id) (kill_row env.now) w.database },
      )

  unfoldable pub deliver_attempt : Env → Claimed → Worker → Result (Unit {0}) × Worker
  unfolding dispatch
  deliver_attempt env c w = dispatch env c (find_subscriber c.attempt.subscriber_id w.database) w

  -- The loop of `_process_batch`; an exception leaves it.
  unfoldable pub deliver_all : (ℕ → Env) → ℕ → List Claimed → Worker → Result ℕ × Worker
  deliver_all envs processed [] w = (ok processed, w)
  deliver_all envs processed (c ∷ cs) w =
      let (result, w') = deliver_attempt (envs processed) c w in
      let rest = deliver_all envs (suc processed) cs w' in
      elim result [ ok _ ↦ rest | raised e ↦ (raised e, w') ]

  -- `_process_batch` behind the claim: nothing to do, or the loop over the committed claim.
  pub deliver_claimed : (ℕ → Env) → List Claimed × Database → Worker → Result ℕ × Worker
  deliver_claimed envs ([], db) w = (ok 0, w)
  deliver_claimed envs (c ∷ cs, db) w = deliver_all envs 0 (c ∷ cs) (record w { database = db })

  unfoldable pub process_batch :
      (ℕ → List DeliveryAttempt → List DeliveryAttempt) → ℕ → (ℕ → Env) → Worker → Result ℕ × Worker
  unfolding deliver_claimed
  process_batch scan now envs w = deliver_claimed envs (claim_batch scan now w.database) w

  unfoldable pub work : Job → Worker → Worker
  work (reset now) w = record w { database = reset_stale_in_flight s now w.database }
  work (batch scan now envs) w = (process_batch scan now envs w).1

  unfoldable pub run_jobs : List Job → Worker → Worker
  run_jobs [] w = w
  run_jobs (j ∷ js) w = run_jobs js (work j w)
