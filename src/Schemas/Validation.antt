-- ===== src/Schemas/Validation.antt =====
-- From a request to the consumer: what `publish_event` queues, and what the reconciler queues again.
pub mod Pipeline
use unith_task.Prelude.{
  ◌≤◌, ◌≡◌, refl, ap, String, Bytes, true, false, Option, none, some, List, [], ◌∷◌, ◌++◌, arith,
  is_empty, text_or, str_eq, length, ◌⊎◌, inl, inr, Option-cases,
}
use unith_task.Prelude.Result.{ok}
use unith_task.Config.{Settings}
use unith_task.Json.{Value, Codec, RoundTrips, text, object, field, empty, get, is_truthy}
use unith_task.Db.{IdempotencyKey, find_key, fits_column}
use unith_task.Schemas.{EventPublishRequest, is_valid_publish}
use unith_task.Consumer.Intake.{Consumer, IntakeEnv, Event, parse_event}
use unith_task.Consumer.Handler.{EnrichEnv, Handled, handle_message}
use unith_task.Consumer.Intake.Stored.{IsMigrated}
use unith_task.Consumer.Handler.Idempotency.{Decodes, handle_message_known}
use unith_task.Consumer.Reconciler.{event_body, event_value}
use unith_task.Api.Events.{publish_event}

-- A body in the form of the program's own messages decodes to what was put in.
pub parse_event-body :
    (m t u : String) (payload : Value)
    → is_empty m ≡ false
    → fits_column m ≡ true
    → fits_column t ≡ true
    → parse_event u (
        object (
          field "message_id"
            (text m)
            (field "event_type" (text t) (field "payload" payload empty))))
      ≡ ok (record { message_id = m; event_type = t; payload = payload })
unfolding parse_event get is_truthy str_eq
parse_event-body m t u payload ne fm ft = rw (ne, fm, ft)

-- The text of a new id: not empty, and within the column.
pub record IsUuidText (u : String) : Type 0 where
  pub not_empty : is_empty u ≡ false
  pub fits : fits_column u ≡ true

valid_type :
    (codec : Codec) (r : EventPublishRequest)
    → is_valid_publish codec r ≡ true
    → fits_column r.event_type ≡ true
unfolding is_valid_publish fits_column
valid_type codec r h = ground arith

valid_id :
    (codec : Codec) (r : EventPublishRequest)
    → is_valid_publish codec r ≡ true
    → (r.message_id ≡ none) ⊎ ((m : String) × (r.message_id ≡ some m) × (fits_column m ≡ true))
unfolding is_valid_publish fits_column
valid_id codec r h = elim (Option-cases r.message_id) [
  | inl e ↦ inl e
  | inr (m, e) ↦ inr (m, e, ground arith)
]

text_or_fits :
    (o : Option String) (u : String)
    → IsUuidText u
    → (o ≡ none) ⊎ ((m : String) × (o ≡ some m) × (fits_column m ≡ true))
    → (is_empty (text_or o u) ≡ false) × (fits_column (text_or o u) ≡ true)
text_or_fits none u iu h = (iu.not_empty, iu.fits)
text_or_fits (some String.[]) u iu h = (iu.not_empty, iu.fits)
text_or_fits (some (String.◌∷◌ c s)) u iu h = (refl, ground arith)

-- What the reconciler publishes for a stored event with a non-empty id, if the codec reads it back
-- and it is within the size limit, is a duplicate to the consumer: it is acknowledged, and no
-- table changes, whatever the provider would answer.
pub republished_is_duplicate :
    (s : Settings) (codec : Codec) (ienv : IntakeEnv) (eenv : EnrichEnv) (c : Consumer)
    (k : IdempotencyKey)
    → RoundTrips codec (event_value k.message_id k.event_type k.raw_payload)
    → IsMigrated c.database
    → find_key k.message_id c.database ≡ some k
    → is_empty k.message_id ≡ false
    → fits_column k.message_id ≡ true
    → fits_column k.event_type ≡ true
    → length (event_body codec k.message_id k.event_type k.raw_payload)
      ≤ s.consumer_max_message_bytes
    → let body = event_body codec k.message_id k.event_type k.raw_payload in
      let h = handle_message s codec ienv eenv body c in
      (h.consumer.database ≡ c.database) × (h.acked ≡ true)
unfolding event_body
republished_is_duplicate s codec ienv eenv c k ic ready stored ne fm ft small =
    let e : Event = record {
      message_id = k.message_id;
      event_type = k.event_type;
      payload = k.raw_payload;
    } in
    let d : Decodes s codec ienv (event_body codec k.message_id k.event_type k.raw_payload) e =
      record {
        value = _;
        small = small;
        loaded = ic;
        parsed =
            parse_event-body k.message_id k.event_type ienv.new_message_id k.raw_payload ne fm ft;
      } in
    let h = handle_message_known s codec _ e ienv eenv c d ready (k, stored) in
    (ap (λ (x : Handled). x.consumer.database) h, ap (λ (x : Handled). x.acked) h)
