-- ===== src/Examples/Publishing.antt =====
-- A request over the consumer to a reading, and over a death of the consumer to the table.
use unith_task.Prelude.{
  none, ℕ, List, ◌⊎◌, ◌≡◌, refl, some, [], ◌∷◌, ◌++◌, arith, str_eq, text_length,
}
use unith_task.Prelude.Result.{ok}
use unith_task.Config.{settings}
use unith_task.Json.{field, empty, text}
use unith_task.Db.{find_key, fits_column}
use unith_task.Db.Table.{find_row}
use unith_task.Enricher.{transient, mock, get_provider}
use unith_task.Schemas.{EventPublishRequest, is_valid_publish, to_event_response}
use unith_task.Schemas.Validation.Pipeline.{event_of, published_body, publish_event-get_event}
use unith_task.Consumer.Intake.{new_key}
use unith_task.Consumer.Retry.{enrich_with_retry}
use unith_task.Consumer.Handler.{handle_message, current_provider}
use unith_task.Consumer.Handler.Outcomes.{outcome_row}
use unith_task.Consumer.Reconciler.{event_body}
use unith_task.Api.Events.{publish_event, get_event}
use unith_task.Broker.{AppState, opened, get_exchange}
use unith_task.Consumer.Intake.{IntakeEnv}
use unith_task.Consumer.Handler.Idempotency.{IsStored}
use unith_task.Consumer.Feed.{Feed, Turn, take_message, die_unacked, commit_all, turn, run_turns}
use unith_task.Consumer.Feed.Lossless.{tables_of}
use unith_task.Api.Events.{confirmed, publish_through}
use unith_task.Api.Events.Durability.{publish_through-lossless}
use unith_task.Examples.Data.{codec, consumer, only_subscriber, intake_env, enrich_env}

abbrev order : EventPublishRequest
order = record {
  event_type = "order.placed";
  payload = field "n" (text "1") empty;
  message_id = some "m1";
}

publish_event-get_event_example :
    let b = published_body codec "u1" order in
    let h =
      handle_message settings codec
        (intake_env 20)
        (enrich_env (transient "busy"))
        b
        (consumer only_subscriber) in
    (publish_event codec "u1" confirmed order [] ≡ (ok "m1", [] ++ b ∷ []))
    × (get_event "m1" h.consumer.database
        ≡ ok (
            to_event_response (
              outcome_row 130
                (enrich_with_retry (λ i. transient "busy"))
                (new_key 20 (event_of "u1" order)))))
unfolding is_valid_publish text_length fits_column event_body find_key find_row current_provider
    get_provider str_eq
publish_event-get_event_example =
    publish_event-get_event settings codec order "u1" [] (intake_env 20)
      (enrich_env (transient "busy")) (consumer only_subscriber) {p = mock} refl
      (record { not_empty = refl; fits = refl }) refl (omega arith) refl refl refl

abbrev start_feed : Feed
start_feed = record {
  queue = [];
  service = record { consumer = consumer only_subscriber; tasks = []; open_round = none };
}

abbrev connected : AppState
connected = record { rmq_connection = some opened; rmq_exchange = some "events" }

-- The first handler dies before its ACK; the message is taken again.
abbrev turns : List Turn
turns = die_unacked 0 (intake_env 20) ∷ take_message 0 (intake_env 30) ∷ commit_all ∷ []

publish_through-lossless_example :
    let sent : Feed = record start_feed {
      queue = (publish_through codec "u1" confirmed order connected []).1;
    } in
    let f' = run_turns settings codec turns sent in
    IsStored "m1" (tables_of f')
    ⊎ ((i : ℕ) × ((env : IntakeEnv)
          → IsStored "m1" (tables_of (turn settings codec (take_message i env) f'))))
unfolding is_valid_publish text_length fits_column event_body publish_through get_exchange
    publish_event
publish_through-lossless_example =
    publish_through-lossless settings codec "u1" confirmed order connected start_feed turns
      {m = "m1"} refl (record { not_empty = refl; fits = refl }) refl (omega arith) refl refl refl
