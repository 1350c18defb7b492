-- ===== src/Schemas/Validation/Pipeline.antt =====
-- From POST /events/publish over the consumer to GET /events/{message_id}.
use unith_task.Prelude.{
  ◌≤◌, ◌≡◌, refl, true, String, Bytes, none, List, [], ◌∷◌, ◌++◌, length, text_or,
}
use unith_task.Prelude.Result.{ok}
use unith_task.Config.{Settings}
use unith_task.Json.{Codec, RoundTrips, object}
use unith_task.Db.{find_key}
use unith_task.Enricher.{Provider}
use unith_task.Schemas.{EventPublishRequest, is_valid_publish, to_event_response}
use unith_task.Schemas.Validation.{IsUuidText, parse_event-body, text_or_fits, valid_id, valid_type}
use unith_task.Consumer.Intake.{Consumer, IntakeEnv, Event, new_key}
use unith_task.Consumer.Retry.{enrich_with_retry}
use unith_task.Consumer.Handler.{EnrichEnv, handle_message, current_provider}
use unith_task.Consumer.Intake.Stored.{IsMigrated}
use unith_task.Consumer.Handler.Idempotency.{Decodes}
use unith_task.Consumer.Handler.Outcomes.{outcome_row, handle_message_outcome}
use unith_task.Consumer.Reconciler.{event_value, event_body}
use unith_task.Api.Events.{confirmed, publish_event, get_event}

-- The event that a request stands for.
abbrev pub event_of : String → EventPublishRequest → Event
event_of new r = record {
  message_id = text_or r.message_id new;
  event_type = r.event_type;
  payload = object r.payload;
}

abbrev pub published_body : Codec → String → EventPublishRequest → Bytes
published_body codec new r =
    event_body codec (text_or r.message_id new) r.event_type (object r.payload)

-- What a valid request puts into the queue decodes to its event, whatever fresh id the consumer
-- would have given.
pub published_body-Decodes :
    (s : Settings) (codec : Codec) (r : EventPublishRequest) (new : String) (ienv : IntakeEnv)
    → RoundTrips codec (event_value (text_or r.message_id new) r.event_type (object r.payload))
    → IsUuidText new
    → is_valid_publish codec r ≡ true
    → length (published_body codec new r) ≤ s.consumer_max_message_bytes
    → Decodes s codec ienv (published_body codec new r) (event_of new r)
unfolding event_body
published_body-Decodes s codec r new ienv ic iu valid small =
    let fits = text_or_fits r.message_id new iu (valid_id codec r valid) in
    let m = text_or r.message_id new in
    record {
      value = event_value m r.event_type (object r.payload);
      small = small;
      loaded = ic;
      parsed =
          parse_event-body m r.event_type ienv.new_message_id (object r.payload) fits.0 fits.1
            (valid_type codec r valid);
    }

-- A valid request with a new id, whose message the broker routes and confirms, is answered with its
-- id and puts one body behind the queue. Once the consumer has handled it, with a provider at hand
-- and with the server default of `reconcile_count` in place, the event can be read under that id: with the type and payload of the
-- request, received at the consumer's time, and with the outcome of the enrichment. The body is
-- within the consumer's limit, the codec reads it back, and a fresh id fits its column.
pub publish_event-get_event :
    (s : Settings) (codec : Codec) (r : EventPublishRequest) (new : String) (queue : List Bytes)
    (ienv : IntakeEnv) (eenv : EnrichEnv) (c : Consumer) {p : Provider}
    → RoundTrips codec (event_value (text_or r.message_id new) r.event_type (object r.payload))
    → IsUuidText new
    → is_valid_publish codec r ≡ true
    → length (published_body codec new r) ≤ s.consumer_max_message_bytes
    → IsMigrated c.database
    → find_key (text_or r.message_id new) c.database ≡ none
    → current_provider s eenv.openai_installed c.provider ≡ ok p
    → let m = text_or r.message_id new in
      let body = published_body codec new r in
      let h = handle_message s codec ienv eenv body c in
      let o = enrich_with_retry (λ i. eenv.enrich p i r.event_type (object r.payload)) in
      (publish_event codec new confirmed r queue ≡ (ok m, queue ++ body ∷ []))
      × (get_event m h.consumer.database
          ≡ ok (to_event_response (outcome_row eenv.now o (new_key ienv.now (event_of new r)))))
unfolding publish_event event_body get_event
publish_event-get_event s codec r new queue ienv eenv c {p} ic iu valid small ready absent there =
    let d = published_body-Decodes s codec r new ienv ic iu valid small in
    let out =
      handle_message_outcome s codec (published_body codec new r) (event_of new r) ienv eenv c
        {p = p} d ready absent there in
    (refl, rw (out.0, get_event) refl)
