-- ===== src/Consumer/Handler.antt =====
-- The second half of `handle_message` of app/consumer/rabbitmq.py, behind the ACK: enrichment and
-- what is written of its outcome; and the whole handler.
pub mod Idempotency
pub mod Outcomes
pub mod Counters
pub mod Others
pub mod Arrivals
pub mod Permanence
pub mod Constraints
use unith_task.Prelude.{ℕ, suc, String, Bytes, Bool, true, false, Option, none, some, List, ◌∷◌}
use unith_task.Prelude.Result.{Result, ok, raised, exception}
use unith_task.Config.{Settings}
use unith_task.Json.{Value, Codec}
use unith_task.Db.{IdempotencyKey, EventStatus, Database, has_key}
use unith_task.Db.Table.{update_rows}
use unith_task.Enricher.{
  Enrichment, EnrichedEvent, transient, fatal, crashed, Provider, get_provider,
}
use unith_task.Consumer.Intake.{
  Consumer, IntakeEnv, Event, Intake, too_large, invalid_json, duplicate, accepted, refused,
  receive,
}
use unith_task.Consumer.Retry.{enrich_with_retry}

-- The outcome of the i-th call of a provider for an event, how long all its calls took, the time of
-- the write behind it, and whether the openai package can be imported.
pub record EnrichEnv : Type 0 where
  pub enrich : Provider → ℕ → String → Value → Enrichment
  pub elapsed : ℕ
  pub now : ℕ
  pub openai_installed : Bool

abbrev pub update_keys :
    (IdempotencyKey → Bool) → (IdempotencyKey → IdempotencyKey) → Database → Database
update_keys p f db = record db { idempotency_keys = update_rows p f db.idempotency_keys }

abbrev pub enriched_row : ℕ → Value → IdempotencyKey → IdempotencyKey
enriched_row now payload k = record k {
  enriched_payload = some payload;
  status = EventStatus.enriched;
  enriched_at = some now;
}

abbrev pub error_row : String → IdempotencyKey → IdempotencyKey
error_row exc k = record k { error = some exc }

-- The branches behind the call of the provider.
pub settle : ℕ → String → Enrichment → Consumer → Result (Unit {0}) × Consumer
settle now message_id (Enrichment.enriched ev) c = (
  ok tt,
  record c {
    database = update_keys (has_key message_id) (enriched_row now ev.enriched_payload) c.database;
  },
)
settle now message_id (transient exc) c = (
  ok tt,
  record c { metrics = record c.metrics { transient_errors = suc c.metrics.transient_errors } },
)
settle now message_id (fatal exc) c = (
  ok tt,
  record c {
    database = update_keys (has_key message_id) (error_row exc) c.database;
    provider = none;
    metrics = record c.metrics { fatal_errors = suc c.metrics.fatal_errors };
  },
)
settle now message_id (crashed exc) c = (raised (exception exc), c)

-- `_get_provider`: the singleton, made on its first use.
unfoldable pub current_provider : Settings → Bool → Option Provider → Result Provider
current_provider s installed (some p) = ok p
current_provider s installed none = get_provider s installed

-- enrichment_duration.observe(…), where the calls ended in an event
abbrev with_duration : ℕ → Enrichment → List ℕ → List ℕ
with_duration elapsed (Enrichment.enriched ev) ds = elapsed ∷ ds
with_duration elapsed _ ds = ds

abbrev observe_enrichment : EnrichEnv → Enrichment → Consumer → Consumer
observe_enrichment env o c = record c {
  metrics = record c.metrics { durations = with_duration env.elapsed o c.metrics.durations };
}

run_provider : EnrichEnv → Event → Result Provider → Consumer → Result (Unit {0}) × Consumer
unfolding settle
run_provider env e (raised exc) c = (raised exc, c)
run_provider env e (ok p) c =
    let outcome = enrich_with_retry (λ i. env.enrich p i e.event_type e.payload) in
    settle env.now e.message_id outcome
      (observe_enrichment env outcome (record c { provider = some p }))

-- Steps 4 and 5.
unfoldable pub enrich_event : Settings → EnrichEnv → Event → Consumer → Result (Unit {0}) × Consumer
unfolding run_provider
enrich_event s env e c = run_provider env e (current_provider s env.openai_installed c.provider) c

-- How the handler leaves: whether it has acknowledged the message, and whether it raised.
pub record Handled : Type 0 where
  pub consumer : Consumer
  pub acked : Bool
  pub result : Result (Unit {0})

abbrev pub acknowledged : Result (Unit {0}) × Consumer → Handled
acknowledged (r, c) = record { consumer = c; acked = true; result = r }

continue_with : Settings → EnrichEnv → Intake × Consumer → Handled
continue_with s env (accepted e, c) = acknowledged (enrich_event s env e c)
continue_with s env (too_large, c) = acknowledged (ok tt, c)
continue_with s env (invalid_json, c) = acknowledged (ok tt, c)
continue_with s env (duplicate, c) = acknowledged (ok tt, c)
continue_with s env (refused, c) = record {
  consumer = c;
  acked = false;
  result = raised (exception "refused");
}

unfoldable pub handle_message :
    Settings → Codec → IntakeEnv → EnrichEnv → Bytes → Consumer → Handled
unfolding continue_with
handle_message s codec intake_env enrich_env body c =
    continue_with s enrich_env (receive s codec intake_env body c)
