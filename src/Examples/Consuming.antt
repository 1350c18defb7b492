-- ===== src/Examples/Consuming.antt =====
-- The consumer and the publisher.
use unith_task.Prelude.{
  ℕ, zero, suc, ◌≡◌, refl, true, none, some, List, [], ◌∷◌, ◌++◌, arith, take, str_eq, text_length,
}
use unith_task.Config.{settings}
use unith_task.Json.{get, is_truthy, field, empty, object, text}
use unith_task.Db.{pending, find_key, fits_column, is_live}
use unith_task.Db.Table.{where_rows, find_row}
use unith_task.Enricher.{Enrichment, enriched, transient, fatal, mock, get_provider}
use unith_task.Consumer.Intake.{parse_event, new_key, attempts_for}
use unith_task.Consumer.Intake.Uniqueness.{IsConsistent}
use unith_task.Consumer.Retry.{enrich_with_retry}
use unith_task.Consumer.Handler.{handle_message, current_provider}
use unith_task.Consumer.Handler.Idempotency.{Decodes, handle_message_twice}
use unith_task.Consumer.Handler.Arrivals.{Delivery, stored_ids, handle_all, handle_all-stored_ids}
use unith_task.Consumer.Handler.Outcomes.{
  outcome_row, outcome_provider, outcome_result, handle_message_outcome,
}
use unith_task.Consumer.Reconciler.{published, publish_timeout}
use unith_task.Consumer.Service.{
  Service, Step, arrive, resume, restart, begin_round, end_round, run_steps,
}
use unith_task.Consumer.Service.Unique.{run_steps-IsConsistent}
use unith_task.Consumer.Service.Stuck.{IsStuck, run_steps-IsStuck}
use unith_task.Examples.Data.{
  payload, message, codec, body, event, subscriber, key, tables, only_subscriber, consumer,
  intake_env, enrich_env,
}

abbrev success : Enrichment
success = enriched (record {
  event_type = "order.placed";
  original_payload = payload;
  enriched_payload = object (field "_enrichment" (text "x") empty);
  model = "mock-gpt";
  tokens_used = 60;
})

event-Decodes : (now : ℕ) → Decodes settings codec (intake_env now) body event
unfolding parse_event get is_truthy str_eq fits_column text_length
event-Decodes now = record { value = message; small = omega arith; loaded = refl; parsed = refl }

handle_message_twice_example :
    let once =
      (handle_message settings codec
        (intake_env 20)
        (enrich_env success)
        body
        (consumer only_subscriber)).consumer in
    let twice =
      handle_message settings codec (intake_env 30) (enrich_env (fatal "down")) body once in
    (twice.consumer.database ≡ once.database) × (twice.acked ≡ true)
handle_message_twice_example =
    handle_message_twice settings codec body event (intake_env 20) (intake_env 30)
      (enrich_env success) (enrich_env (fatal "down")) (consumer only_subscriber) (event-Decodes 20)
      (event-Decodes 30) refl

-- The same message twice.
abbrev queue : List Delivery
queue =
    record { body = body; intake = intake_env 20; enrich = enrich_env success }
    ∷ record { body = body; intake = intake_env 30; enrich = enrich_env (fatal "down") }
    ∷ []

handle_all-stored_ids_example :
    stored_ids (handle_all settings codec queue (consumer only_subscriber)).database ≡ "m1" ∷ []
unfolding str_eq
handle_all-stored_ids_example =
    handle_all-stored_ids settings codec ("m1" ∷ "m1" ∷ []) queue (consumer only_subscriber)
      ((event, refl, event-Decodes 20), ((event, refl, event-Decodes 30), tt))

handle_message_outcome_example :
    let o = enrich_with_retry (λ i. success) in
    let h =
      handle_message settings codec
        (intake_env 20)
        (enrich_env success)
        body
        (consumer only_subscriber) in
    (find_key "m1" h.consumer.database ≡ some (outcome_row 130 o (new_key 20 event)))
    × (h.consumer.database.delivery_attempts
        ≡ [] ++ attempts_for 20 "m1" (λ n. n) 0 (where_rows is_live (subscriber ∷ [])))
    × (h.consumer.provider ≡ outcome_provider o mock)
    × (h.acked ≡ true)
    × (h.result ≡ outcome_result o)
unfolding find_key find_row current_provider get_provider str_eq
handle_message_outcome_example =
    handle_message_outcome settings codec body event (intake_env 20) (enrich_env success)
      (consumer only_subscriber) {p = mock} (event-Decodes 20) refl refl refl

subscriber-IsConsistent : IsConsistent only_subscriber
subscriber-IsConsistent = record {
  subscriber_once = λ i. ground arith;
  key_once = λ m. omega arith;
  pair_refers = λ m i. omega arith;
}

-- One transient failure, and then a success.
abbrev calls : ℕ → Enrichment
calls zero = transient "busy"
calls (suc n) = success

-- The reconciler's round, its message, a restart and another round.
abbrev steps : List Step
steps =
    begin_round take (λ k. published) 900000
    ∷ arrive (intake_env 900001) body
    ∷ end_round
    ∷ restart
    ∷ resume 0 (enrich_env success)
    ∷ begin_round take (λ k. publish_timeout) 1800000
    ∷ end_round
    ∷ []

abbrev service : Service
service = record { consumer = consumer (tables pending); tasks = []; open_round = none }

run_steps-IsStuck_example : IsStuck "m1" (run_steps settings codec steps service)
unfolding find_key find_row str_eq
run_steps-IsStuck_example =
    run_steps-IsStuck settings codec "m1" steps service
      (record { waiting = (key, refl, refl); unattended = tt })

-- The message twice, with the answer of the provider in between.
abbrev redelivery : List Step
redelivery =
    arrive (intake_env 20) body ∷ resume 0 (enrich_env success) ∷ arrive (intake_env 30) body ∷ []

run_steps-IsConsistent_example :
    IsConsistent
      (run_steps settings codec redelivery (record {
        consumer = consumer only_subscriber;
        tasks = [];
        open_round = none;
      })).consumer.database
run_steps-IsConsistent_example =
    run_steps-IsConsistent settings codec redelivery
      (record { consumer = consumer only_subscriber; tasks = []; open_round = none })
      subscriber-IsConsistent
