-- ===== src/Consumer/Handler/Idempotency.antt =====
-- A message is handled once: what a second delivery of it changes.
use mathlib.Core.Option
use unith_task.Prelude.{
  ℕ, suc, ◌≤◌, ◌≡◌, refl, ◌∙◌, ap, String, Bytes, true, false, none, some, [], ◌∷◌, ◌++◌, length,
  str_eq_refl, if◌then◌else◌, inl, inr, Option-cases,
}
use unith_task.Prelude.Result.{Result, ok, raised, exception}
use unith_task.Config.{Settings}
use unith_task.Json.{Value, Codec}
use unith_task.Db.{IdempotencyKey, Database, is_live, find_key}
use unith_task.Db.Table.{where_rows}
use unith_task.Db.Lookup.{find_key-update}
use unith_task.Enricher.{Enrichment, enriched, transient, fatal, crashed, Provider}
use unith_task.Consumer.Intake.{Consumer, IntakeEnv, Event, parse_event, new_key, attempts_for}
use unith_task.Consumer.Intake.Stored.{
  IsMigrated, receive_event, store_event_known, store_event_new, store_event_fresh, find_key-insert,
}
use unith_task.Consumer.Handler.{
  observe_enrichment, EnrichEnv, Handled, settle, run_provider, enrich_event, continue_with,
  handle_message, acknowledged, enriched_row, error_row,
}

-- There is a row for the id.
abbrev pub IsStored : String → Database → Type 0
IsStored m db = (k : IdempotencyKey) × (find_key m db ≡ some k)

-- What a handler may do to the tables behind its ACK: change rows of the first one.
pub record OnlyKeys (db db' : Database) : Type 0 where
  pub same_subscribers : db'.subscribers ≡ db.subscribers
  pub same_attempts : db'.delivery_attempts ≡ db.delivery_attempts
  pub same_default : db'.has_count_default ≡ db.has_count_default
  pub still_stored : (m : String) → IsStored m db → IsStored m db'

pub settle-OnlyKeys :
    (now : ℕ) (m : String) (o : Enrichment) (c : Consumer)
    → OnlyKeys c.database (settle now m o c).1.database
unfolding settle
settle-OnlyKeys now m (enriched ev) c = record {
  same_subscribers = refl;
  same_attempts = refl;
  same_default = refl;
  still_stored = λ j (k, e). (
    _,
    find_key-update j _ (enriched_row now ev.enriched_payload) c.database (λ x. refl)
        ∙ ap (Option.map _) e,
  );
}
settle-OnlyKeys now m (transient x) c = record {
  same_subscribers = refl;
  same_attempts = refl;
  same_default = refl;
  still_stored = λ j h. h;
}
settle-OnlyKeys now m (fatal x) c = record {
  same_subscribers = refl;
  same_attempts = refl;
  same_default = refl;
  still_stored = λ j (k, e).
      (_, find_key-update j _ (error_row x) c.database (λ y. refl) ∙ ap (Option.map _) e);
}
settle-OnlyKeys now m (crashed x) c = record {
  same_subscribers = refl;
  same_attempts = refl;
  same_default = refl;
  still_stored = λ j h. h;
}

run_provider-OnlyKeys :
    (env : EnrichEnv) (e : Event) (p : Result Provider) (c : Consumer)
    → OnlyKeys c.database (run_provider env e p c).1.database
unfolding run_provider
run_provider-OnlyKeys env e (raised x) c = record {
  same_subscribers = refl;
  same_attempts = refl;
  same_default = refl;
  still_stored = λ j h. h;
}
run_provider-OnlyKeys env e (ok p) c =
    settle-OnlyKeys env.now e.message_id _
      (observe_enrichment env _ (record c { provider = some p }))

-- Enrichment touches no attempt and no subscriber, and removes no event.
pub enrich_event-OnlyKeys :
    (s : Settings) (env : EnrichEnv) (e : Event) (c : Consumer)
    → OnlyKeys c.database (enrich_event s env e c).1.database
unfolding enrich_event
enrich_event-OnlyKeys s env e c = run_provider-OnlyKeys env e _ c

-- The consumer behind the transaction for a new event.
abbrev pub intake_of : IntakeEnv → Event → Consumer → Consumer
intake_of env e c = record c {
  database = record c.database {
    idempotency_keys = c.database.idempotency_keys ++ new_key env.now e ∷ [];
    delivery_attempts =
        c.database.delivery_attempts
        ++ attempts_for env.now e.message_id env.new_ids 0
            (where_rows is_live c.database.subscribers);
  };
  metrics = record c.metrics { received_total = suc c.metrics.received_total };
}

pub find_key-intake_of :
    (env : IntakeEnv) (e : Event) (c : Consumer)
    → find_key e.message_id c.database ≡ none
    → find_key e.message_id (intake_of env e c).database ≡ some (new_key env.now e)
unfolding find_key
find_key-intake_of env e c new =
    find_key-insert env.now e e.message_id c.database new
    ∙ ap (λ b. if b then some (new_key env.now e) else find_key e.message_id c.database)
        (str_eq_refl e.message_id)

-- A body that is within the size limit and decodes to the event `e`.
pub record Decodes (s : Settings) (codec : Codec) (env : IntakeEnv) (body : Bytes) (e : Event)
    : Type 0 where
  pub value : Value
  pub small : length body ≤ s.consumer_max_message_bytes
  pub loaded : codec.loads body ≡ some value
  pub parsed : parse_event env.new_message_id value ≡ ok e

module _ (s : Settings) (codec : Codec) (body : Bytes) (e : Event) where
  -- A message whose id is stored is acknowledged and counted as a duplicate; the tables, the
  -- provider and the other counters stay as they are, whatever else the message holds.
  pub handle_message_known :
      (ienv : IntakeEnv) (eenv : EnrichEnv) (c : Consumer)
      → Decodes s codec ienv body e
      → IsMigrated c.database
      → IsStored e.message_id c.database
      → handle_message s codec ienv eenv body c ≡ record {
        consumer = record c {
          metrics = record c.metrics { duplicate_total = suc c.metrics.duplicate_total };
        };
        acked = true;
        result = ok tt;
      }
  unfolding handle_message
  handle_message_known ienv eenv c d ready (k, known) = ap (continue_with s eenv) (
      receive_event s codec ienv body c d.small d.loaded d.parsed
      ∙ store_event_known ienv e c ready known)

  -- Without the server default the handler raises in front of its ACK, and nothing is stored.
  pub handle_message_fresh :
      (ienv : IntakeEnv) (eenv : EnrichEnv) (c : Consumer)
      → Decodes s codec ienv body e
      → c.database.has_count_default ≡ false
      → handle_message s codec ienv eenv body c
        ≡ record { consumer = c; acked = false; result = raised (exception "refused") }
  unfolding handle_message
  handle_message_fresh ienv eenv c d fresh = ap (continue_with s eenv) (
      receive_event s codec ienv body c d.small d.loaded d.parsed
      ∙ store_event_fresh ienv e c fresh)

  pub handle_message_new :
      (ienv : IntakeEnv) (eenv : EnrichEnv) (c : Consumer)
      → Decodes s codec ienv body e
      → IsMigrated c.database
      → find_key e.message_id c.database ≡ none
      → handle_message s codec ienv eenv body c
        ≡ acknowledged (enrich_event s eenv e (intake_of ienv e c))
  unfolding handle_message
  handle_message_new ienv eenv c d ready new = ap (continue_with s eenv) (
      receive_event s codec ienv body c d.small d.loaded d.parsed
      ∙ store_event_new ienv e c ready new)

  pub handle_message-IsStored :
      (ienv : IntakeEnv) (eenv : EnrichEnv) (c : Consumer)
      → Decodes s codec ienv body e
      → IsMigrated c.database
      → IsStored e.message_id (handle_message s codec ienv eenv body c).consumer.database
  handle_message-IsStored ienv eenv c d ready =
      elim (Option-cases (find_key e.message_id c.database)) [
        | inl new ↦ rw (handle_message_new ienv eenv c d ready new) (
            (enrich_event-OnlyKeys s eenv e (intake_of ienv e c)).still_stored e.message_id
              (new_key ienv.now e, find_key-intake_of ienv e c new))
        | inr (k, known) ↦ rw (handle_message_known ienv eenv c d ready (k, known)) (k, known)
      ]

  -- The handler changes no column.
  pub handle_message-IsMigrated :
      (ienv : IntakeEnv) (eenv : EnrichEnv) (c : Consumer)
      → Decodes s codec ienv body e
      → IsMigrated c.database
      → IsMigrated (handle_message s codec ienv eenv body c).consumer.database
  handle_message-IsMigrated ienv eenv c d ready =
      elim (Option-cases (find_key e.message_id c.database)) [
        | inl new ↦
            rw (handle_message_new ienv eenv c d ready new)
              ((enrich_event-OnlyKeys s eenv e (intake_of ienv e c)).same_default ∙ ready)
        | inr (k, known) ↦ rw (handle_message_known ienv eenv c d ready (k, known)) ready
      ]

  -- A body within the size limit that decodes to an event is handled, from any tables whose column
  -- `reconcile_count` has its server default, and then handled again, with any clock, ids and
  -- answers of the provider. The second handling changes no table (no second row, no second set of
  -- attempts) and acknowledges the message.
  pub handle_message_twice :
      (first second : IntakeEnv) (eenv eenv' : EnrichEnv) (c : Consumer)
      → Decodes s codec first body e
      → Decodes s codec second body e
      → IsMigrated c.database
      → let once = (handle_message s codec first eenv body c).consumer in
        let twice = handle_message s codec second eenv' body once in
        (twice.consumer.database ≡ once.database) × (twice.acked ≡ true)
  handle_message_twice first second eenv eenv' c d d' ready =
      let again =
        handle_message_known second eenv' (handle_message s codec first eenv body c).consumer d'
          (handle_message-IsMigrated first eenv c d ready)
          (handle_message-IsStored first eenv c d ready) in
      (ap (λ (h : Handled). h.consumer.database) again, ap (λ (h : Handled). h.acked) again)
