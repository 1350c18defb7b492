-- ===== src/Examples/Racing.antt =====
-- A handler that overtakes a round of the reconciler, claims that overtake a retry and an enrichment,
-- and what stays whatever happens.
use unith_task.Prelude.{◌≡◌, refl, none, some, [], ◌∷◌, str_eq}
use unith_task.Prelude.Result.{ok}
use unith_task.Config.{settings}
use unith_task.Json.{field, empty, object, text}
use unith_task.Db.{Subscriber, IdempotencyKey, pending, find_key, find_subscriber}
use unith_task.Db.Table.{find_row}
use unith_task.Enricher.{EnrichedEvent, Enrichment, mock, get_provider}
use unith_task.Consumer.Handler.{enriched_row, current_provider}
use unith_task.Consumer.Handler.Permanence.{IsSameEvent}
use unith_task.Consumer.Reconciler.{abandon, changed_row}
use unith_task.Consumer.Retry.{enrich_with_retry}
use unith_task.Consumer.Service.{Service, resume, end_round, pick, run_steps}
use unith_task.Consumer.Service.Overwrite.{abandoned_overwrites}
use unith_task.Api.Subscribers.Permanence.{IsSameSubscriber}
use unith_task.System.{System, database_of, with_tables, start, later, unsubscribe}
use unith_task.System.Permanence.{Reach-keeps}
use unith_task.System.Races.{retry_overtaken}
use unith_task.Db.{DeliveryStatus, DeliveryAttempt, in_flight, find_attempt}
use unith_task.Db.Table.{where_rows, take-IsScan}
use unith_task.Delivery.Claim.{claim_batch, is_claimable}
use unith_task.Delivery.Lifecycle.{stage, IsSameAttempt}
use unith_task.Api.Deliveries.{retry_write}
use unith_task.Prelude.{arith, take, true}
use unith_task.Db.{delivered}
use unith_task.Delivery.Claim.{Claimed}
use unith_task.Delivery.Sender.{DeliveryResult, deliver, classify}
use unith_task.Delivery.Worker.{deliver_attempt}
use unith_task.Consumer.Handler.{enrich_event}
use unith_task.System.Unenriched.{sent_unenriched}
use unith_task.Examples.Data.{
  env, worker, attempt_at, payload, codec, rt, event, subscriber, key, tables, consumer, enrich_env,
}

abbrev answer : EnrichedEvent
answer = record {
  event_type = "order.placed";
  original_payload = payload;
  enriched_payload = object (field "_enrichment" (text "x") empty);
  model = "mock-gpt";
  tokens_used = 60;
}

-- The round has given the event up; its handler still waits for the provider.
abbrev overtaken : Service
overtaken = record {
  consumer = consumer (tables pending);
  tasks = event ∷ [];
  open_round = some (ok (("m1", abandon 10) ∷ []));
}

abandoned_overwrites_example :
    find_key "m1"
      (run_steps settings codec
        (resume 0 (enrich_env (Enrichment.enriched answer)) ∷ end_round ∷ [])
        overtaken).consumer.database
    ≡ some (changed_row (abandon 10) (enriched_row 130 answer.enriched_payload key))
unfolding find_key find_row str_eq pick current_provider get_provider enrich_with_retry
abandoned_overwrites_example =
    abandoned_overwrites settings codec overtaken 0 10 (enrich_env (Enrichment.enriched answer))
      event [] [] {p = mock} {k = key} {ev = answer} refl tt refl refl refl refl

abbrev before : System
before = record {
  service = record { consumer = consumer (tables pending); tasks = []; open_round = none };
  held = [];
}

abbrev after_delete : System
after_delete =
    with_tables (unith_task.Api.Subscribers.delete_subscriber 7 500 (database_of before)).1 []
      before

Reach-keeps_example :
    ((k' : IdempotencyKey) × (find_key "m1" (database_of after_delete) ≡ some k')
      × IsSameEvent key k')
    × ((y : Subscriber) × (find_subscriber 7 (database_of after_delete) ≡ some y)
        × IsSameSubscriber subscriber y)
    × ((b : DeliveryAttempt) × (find_attempt 2 (database_of after_delete) ≡ some b)
        × IsSameAttempt (attempt_at 2 pending) b)
unfolding find_key find_subscriber find_attempt find_row str_eq
Reach-keeps_example =
    Reach-keeps settings codec rt "m1" 7 2 before after_delete key subscriber (attempt_at 2 pending)
      (later start (unsubscribe 7 500)) refl refl refl

retry_overtaken_example :
    let held = (claim_batch take 20 (tables DeliveryStatus.failed)).1 in
    (stage 2 held ≡ some (in_flight, 2))
    × ((b : DeliveryAttempt) × (find_attempt 2 (retry_write 2 25 25 held) ≡ some b)
        × (is_claimable 30 b ≡ true))
unfolding claim_batch find_attempt find_row where_rows
retry_overtaken_example =
    retry_overtaken take take-IsScan 2 20 25 25 30 (tables DeliveryStatus.failed)
      {a = attempt_at 2 DeliveryStatus.failed} refl refl refl (omega arith)

-- The worker has claimed the attempt of an event that waits for its enrichment.
abbrev too_early : Claimed
too_early = record { attempt = attempt_at 2 in_flight; idempotency_key = some key }

abbrev accepted_result : DeliveryResult
accepted_result = record { success = true; status_code = some 200; error = none }

sent_unenriched_example :
    let sent = (deliver_attempt settings rt (env 200) too_early (worker in_flight)).1.database in
    let back =
      (enrich_event settings
        (enrich_env (Enrichment.enriched answer))
        event
        (consumer sent)).1.database in
    (find_key "m1" back ≡ some (enriched_row 130 answer.enriched_payload key))
    × (stage 2 back ≡ some (delivered, 3))
unfolding find_key find_subscriber find_attempt find_row str_eq deliver classify current_provider
    get_provider enrich_with_retry
sent_unenriched_example =
    sent_unenriched settings rt (env 200) too_early (worker in_flight)
      (enrich_env (Enrichment.enriched answer)) event (consumer (tables in_flight))
      {a = attempt_at 2 in_flight} {sub = subscriber} {ik = key} {r = accepted_result} {p = mock}
      {ev = answer} refl refl refl refl refl refl refl refl refl refl
