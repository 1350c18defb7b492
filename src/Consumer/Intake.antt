-- ===== src/Consumer/Intake.antt =====
-- The first half of `handle_message` of app/consumer/rabbitmq.py, up to its ACK: the guards, the
-- idempotency row and the delivery attempts, which one transaction writes.
pub mod Stored
pub mod Uniqueness
use unith_task.Prelude.{
  ℕ, suc, String, Bytes, Option, none, some, List, [], ◌∷◌, ◌++◌, length, ltb, if◌then◌else◌,
}
use unith_task.Prelude.Result.{Result, ok, raised, exception, ◌>>=◌}
use unith_task.Config.{Settings}
use unith_task.Json.{Value, Fields, Codec, text, object, empty, get, get_or, value_or, as_text}
use unith_task.Db.{
  Subscriber, IdempotencyKey, received, DeliveryAttempt, pending, Database, is_live, fits_column,
  find_key,
}
use unith_task.Db.Table.{where_rows}
use unith_task.Enricher.{Provider}

-- The counters of app/metrics.py that the consumer moves, and the durations that its histogram was
-- given, in milliseconds.
pub record ConsumerMetrics : Type 0 where
  pub received_total : ℕ
  pub duplicate_total : ℕ
  pub transient_errors : ℕ
  pub fatal_errors : ℕ
  pub durations : List ℕ

-- The tables, and the two pieces of process state: the provider singleton and the counters.
pub record Consumer : Type 0 where
  pub database : Database
  pub provider : Option Provider
  pub metrics : ConsumerMetrics

-- What an intake draws from outside: the clock, the text of uuid4() for a message without an id,
-- and the ids of the new rows.
pub record IntakeEnv : Type 0 where
  pub now : ℕ
  pub new_message_id : String
  pub new_ids : ℕ → ℕ

pub record Event : Type 0 where
  pub message_id : String
  pub event_type : String
  pub payload : Value

-- A text column refuses a value of another type, NULL included, and a text over its width.
column_text : Value → Result String
column_text v = elim (as_text v) [
  | none ↦ raised (exception "DataError")
  | some s ↦ if fits_column s then ok s else raised (exception "StringDataRightTruncation")
]

-- The INSERT does not name `reconcile_count`: its 0 is the server default.
unfoldable pub new_key : ℕ → Event → IdempotencyKey
new_key now e = record {
  message_id = e.message_id;
  event_type = e.event_type;
  raw_payload = e.payload;
  enriched_payload = none;
  status = received;
  received_at = now;
  enriched_at = none;
  dispatched_at = none;
  error = none;
  reconcile_count = 0;
}

-- INSERT … ON CONFLICT (message_id) DO NOTHING RETURNING, of a row that meets the NOT NULL columns.
unfoldable pub insert_row : ℕ → Event → Database → Option IdempotencyKey × Database
unfolding new_key
insert_row now e db = elim (find_key e.message_id db) [
  | some old ↦ (none, db)
  | none ↦ (
    some (new_key now e),
    record db { idempotency_keys = db.idempotency_keys ++ new_key now e ∷ [] },
  )
]

-- `_insert_idempotency_key`. Where `reconcile_count` has no server default, the row has no value for
-- a NOT NULL column: the database refuses it before it looks for a conflict.
unfoldable pub insert_idempotency_key :
    ℕ → Event → Database → Result (Option IdempotencyKey × Database)
unfolding insert_row
insert_idempotency_key now e db =
    if db.has_count_default then ok (insert_row now e db) else raised (exception "NotNullViolation")

unfoldable pub new_attempt : ℕ → String → ℕ → Subscriber → DeliveryAttempt
new_attempt now message_id id sub = record {
  id = id;
  message_id = message_id;
  subscriber_id = sub.id;
  status = pending;
  attempt_count = 0;
  next_attempt_at = now;
  last_attempt_at = none;
  last_http_status = none;
  last_error = none;
  created_at = now;
  updated_at = now;
}

-- The loop over the subscribers; `count` numbers the ids that it draws.
unfoldable pub attempts_for : ℕ → String → (ℕ → ℕ) → ℕ → List Subscriber → List DeliveryAttempt
unfolding new_attempt
attempts_for now message_id ids count [] = []
attempts_for now message_id ids count (sub ∷ subs) =
    new_attempt now message_id (ids count) sub ∷ attempts_for now message_id ids (suc count) subs

-- `_create_delivery_attempts`
unfoldable pub create_delivery_attempts : ℕ → String → (ℕ → ℕ) → Database → ℕ × Database
unfolding attempts_for
create_delivery_attempts now message_id ids db =
    let subscribers = where_rows is_live db.subscribers in
    (
      length subscribers,
      record db {
        delivery_attempts = db.delivery_attempts ++ attempts_for now message_id ids 0 subscribers;
      },
    )

-- How an intake ends. All but `refused` have acknowledged the message.
pub data Intake : Type 0 where
  too_large : Intake
  invalid_json : Intake
  duplicate : Intake
  accepted : Event → Intake
  refused : Intake

-- The fields of the decoded message; `.get` of anything but a dict raises.
message_fields : Value → Result Fields
message_fields (object d) = ok d
message_fields _ = raised (exception "AttributeError")

unfoldable pub parse_event : String → Value → Result Event
unfolding column_text message_fields
parse_event new_message_id v = do
  d ← message_fields v
  message_id ← column_text (value_or (get "message_id" d) (text new_message_id))
  event_type ← column_text (get_or "event_type" (text "unknown") d)
  ok (record {
    message_id = message_id;
    event_type = event_type;
    payload = get_or "payload" (object empty) d;
  })

-- Steps 1 to 3 behind the insert: an exception, a duplicate, or the attempts, the commit and the ACK.
commit_event :
    IntakeEnv → Event → Result (Option IdempotencyKey × Database) → Consumer → Intake × Consumer
commit_event env e (raised x) c = (refused, c)
commit_event env e (ok (none, db)) c = (
  duplicate,
  record c { metrics = record c.metrics { duplicate_total = suc c.metrics.duplicate_total } },
)
commit_event env e (ok (some ik, db)) c = (
  accepted e,
  record c {
    database = (create_delivery_attempts env.now e.message_id env.new_ids db).1;
    metrics = record c.metrics { received_total = suc c.metrics.received_total };
  },
)

unfoldable pub store_event : IntakeEnv → Event → Consumer → Intake × Consumer
unfolding commit_event
store_event env e c = commit_event env e (insert_idempotency_key env.now e c.database) c

pub take_event : IntakeEnv → Result Event → Consumer → Intake × Consumer
take_event env (raised e) c = (refused, c)
take_event env (ok e) c = store_event env e c

pub decode : IntakeEnv → Option Value → Consumer → Intake × Consumer
unfolding take_event
decode env none c = (invalid_json, c)
decode env (some v) c = take_event env (parse_event env.new_message_id v) c

unfoldable pub receive : Settings → Codec → IntakeEnv → Bytes → Consumer → Intake × Consumer
unfolding decode
receive s codec env body c =
    if ltb s.consumer_max_message_bytes (length body)
    then (too_large, c)
    else decode env (codec.loads body) c
