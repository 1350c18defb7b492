-- ===== src/Examples/Data.antt =====
-- Concrete parameters and tables.
use unith_task.Prelude.{ℕ, Bytes, true, false, none, some, [], ◌∷◌, arith}
use unith_task.Json.{Value, Codec, object, field, empty, text}
use unith_task.Runtime.{Runtime}
use unith_task.Db.{
  Subscriber, IdempotencyKey, received, DeliveryAttempt, DeliveryStatus, delivered, Database,
}
use unith_task.Delivery.Backoff.{IsUniform}
use unith_task.Delivery.Sender.{response}
use unith_task.Delivery.Claim.{DeliveryMetrics, Worker, Env}
use unith_task.Enricher.{Enrichment}
use unith_task.Consumer.Intake.{Consumer, IntakeEnv, Event}
use unith_task.Consumer.Handler.{EnrichEnv}
use unith_task.Consumer.Reconciler.{event_value}

abbrev pub payload : Value
payload = object (field "n" (text "1") empty)

abbrev pub message : Value
message = event_value "m1" "order.placed" payload

-- A codec that knows one message.
abbrev pub codec : Codec
codec = record {
  dumps = λ v. 123 ∷ 125 ∷ [];
  dumps_compact = λ v. 123 ∷ 125 ∷ [];
  loads = λ b. some message;
}

abbrev pub rt : Runtime
rt = record { codec = codec; hmac_sha256_hex = λ key msg. "ab"; uuid_text = λ n. "id" }

abbrev pub body : Bytes
body = 123 ∷ 125 ∷ []

abbrev pub event : Event
event = record { message_id = "m1"; event_type = "order.placed"; payload = payload }

abbrev pub subscriber : Subscriber
subscriber = record {
  id = 7;
  name = "shop";
  endpoint = "http://shop/hook";
  secret = "s3cret";
  is_active = true;
  created_at = 1;
  updated_at = 1;
  deleted_at = none;
}

abbrev pub key : IdempotencyKey
key = record {
  message_id = "m1";
  event_type = "order.placed";
  raw_payload = payload;
  enriched_payload = none;
  status = received;
  received_at = 10;
  enriched_at = none;
  dispatched_at = none;
  error = none;
  reconcile_count = 0;
}

abbrev pub attempt_at : ℕ → DeliveryStatus → DeliveryAttempt
attempt_at id st = record {
  id = id;
  message_id = "m1";
  subscriber_id = 7;
  status = st;
  attempt_count = 2;
  next_attempt_at = 10;
  last_attempt_at = none;
  last_http_status = none;
  last_error = none;
  created_at = 10;
  updated_at = 10;
}

-- A delivered attempt and one with the given status.
abbrev pub tables : DeliveryStatus → Database
tables st = record {
  has_count_default = true;
  subscribers = subscriber ∷ [];
  idempotency_keys = key ∷ [];
  delivery_attempts = attempt_at 1 delivered ∷ attempt_at 2 st ∷ [];
}

abbrev pub only_subscriber : Database
only_subscriber = record {
  has_count_default = true;
  subscribers = subscriber ∷ [];
  idempotency_keys = [];
  delivery_attempts = [];
}

abbrev pub metrics : DeliveryMetrics
metrics = record { attempted = 0; succeeded = 0; failures = []; dead_letters = 0; durations = [] }

abbrev pub worker : DeliveryStatus → Worker
worker st = record { database = tables st; metrics = metrics }

abbrev pub uniform : ℕ → ℕ → ℕ
uniform a b = b

pub uniform-IsUniform : IsUniform uniform
uniform-IsUniform = record { above = λ a b le. le; below = λ a b le. omega arith }

-- A client whose every answer has one status.
abbrev pub env : ℕ → Env
env code = record {
  http = λ r. response code (some "busy");
  sent_at = 100;
  now = 120;
  elapsed = 20;
  uniform = uniform;
}

abbrev pub consumer : Database → Consumer
consumer db = record {
  database = db;
  provider = none;
  metrics = record {
    received_total = 0;
    duplicate_total = 0;
    transient_errors = 0;
    fatal_errors = 0;
    durations = [];
  };
}

abbrev pub intake_env : ℕ → IntakeEnv
intake_env now = record { now = now; new_message_id = "u1"; new_ids = λ n. n }

abbrev pub enrich_env : Enrichment → EnrichEnv
enrich_env o = record { enrich = λ p i t v. o; elapsed = 5; now = 130; openai_installed = false }
