-- ===== src/Schemas.antt =====
-- app/schemas: the request models with their validators, and the response models.
pub mod Validation
use unith_task.Prelude.{
  ℕ, String, Bool, true, false, not, ◌&&◌, ◌||◌, Option, none, some, length, leb, ltb,
  if◌then◌else◌, is_empty, text_length, begins_with,
}
use unith_task.Prelude.Result.{Result, ok, raised, exception, ◌>>=◌}
use unith_task.Json.{Value, Fields, Codec, object}
use unith_task.Db.{Subscriber, IdempotencyKey, EventStatus, DeliveryStatus, DeliveryAttempt}

-- event.py

pub record EventPublishRequest : Type 0 where
  pub event_type : String
  pub payload : Fields
  pub message_id : Option String

abbrev pub max_payload_bytes : ℕ
max_payload_bytes = 512000

abbrev pub max_event_type_len : ℕ
max_event_type_len = 255

abbrev length_at_most : ℕ → Option String → Bool
length_at_most n none = true
length_at_most n (some s) = leb (text_length s) n

-- The field bounds and `payload_size_limit`. The text that `json.dumps` writes is ASCII, so its
-- length is that of its bytes.
unfoldable pub is_valid_publish : Codec → EventPublishRequest → Bool
is_valid_publish codec r =
    leb 1 (text_length r.event_type)
    && leb (text_length r.event_type) max_event_type_len
    && length_at_most 255 r.message_id
    && not (ltb max_payload_bytes (length (codec.dumps_compact (object r.payload))))

-- subscriber.py

-- `urlparse(v).netloc`, or `none` where urlparse raises ValueError.
unfoldable pub validate_http_url : (String → Option String) → String → Result String
validate_http_url netloc v =
    if begins_with v "http://" || begins_with v "https://"
    then elim (netloc v) [
      | none ↦ raised (exception "ValueError")
      | some host ↦
          if is_empty host then raised (exception "endpoint must include a valid host") else ok v
    ]
    else raised (exception "endpoint must start with http:// or https://")

pub record SubscriberCreate : Type 0 where
  pub name : String
  pub endpoint : String

pub record SubscriberUpdate : Type 0 where
  pub endpoint : Option String
  pub is_active : Option Bool

-- The body of POST /subscribers: the bounds of `name` and the validator of `endpoint`.
unfoldable pub valid_create : (String → Option String) → SubscriberCreate → Result SubscriberCreate
valid_create netloc b =
    if leb 1 (text_length b.name) && leb (text_length b.name) 255
    then (validate_http_url netloc b.endpoint >>= λ v. ok (record b { endpoint = v }))
    else raised (exception "name")

abbrev pub endpoint_or_none : (String → Option String) → Option String → Result (Option String)
endpoint_or_none netloc none = ok none
endpoint_or_none netloc (some v) = validate_http_url netloc v >>= λ u. ok (some u)

-- The body of PATCH: an endpoint that is given is checked.
unfoldable pub valid_update : (String → Option String) → SubscriberUpdate → Result SubscriberUpdate
valid_update netloc b = endpoint_or_none netloc b.endpoint >>= λ v. ok (record b { endpoint = v })

pub record SubscriberResponse : Type 0 where
  pub id : ℕ
  pub name : String
  pub endpoint : String
  pub is_active : Bool
  pub created_at : ℕ

pub record SubscriberCreatedResponse : Type 0 where
  pub response : SubscriberResponse
  pub secret : String

abbrev pub to_subscriber_response : Subscriber → SubscriberResponse
to_subscriber_response s = record {
  id = s.id;
  name = s.name;
  endpoint = s.endpoint;
  is_active = s.is_active;
  created_at = s.created_at;
}

-- event.py

pub record EnrichedEventResponse : Type 0 where
  pub message_id : String
  pub event_type : String
  pub raw_payload : Value
  pub enriched_payload : Option Value
  pub status : EventStatus
  pub received_at : ℕ
  pub enriched_at : Option ℕ
  pub dispatched_at : Option ℕ
  pub error : Option String

abbrev pub to_event_response : IdempotencyKey → EnrichedEventResponse
to_event_response k = record {
  message_id = k.message_id;
  event_type = k.event_type;
  raw_payload = k.raw_payload;
  enriched_payload = k.enriched_payload;
  status = k.status;
  received_at = k.received_at;
  enriched_at = k.enriched_at;
  dispatched_at = k.dispatched_at;
  error = k.error;
}

-- delivery.py

pub record DeliveryAttemptResponse : Type 0 where
  pub id : ℕ
  pub message_id : String
  pub subscriber_id : ℕ
  pub status : DeliveryStatus
  pub attempt_count : ℕ
  pub next_attempt_at : ℕ
  pub last_attempt_at : Option ℕ
  pub last_http_status : Option ℕ
  pub last_error : Option String
  pub created_at : ℕ

abbrev pub to_delivery_response : DeliveryAttempt → DeliveryAttemptResponse
to_delivery_response a = record {
  id = a.id;
  message_id = a.message_id;
  subscriber_id = a.subscriber_id;
  status = a.status;
  attempt_count = a.attempt_count;
  next_attempt_at = a.next_attempt_at;
  last_attempt_at = a.last_attempt_at;
  last_http_status = a.last_http_status;
  last_error = a.last_error;
  created_at = a.created_at;
}
