-- ===== src/Consumer/Handler/Outcomes.antt =====
-- What is written of a new message, for each outcome of the provider.
use unith_task.Prelude.{
  ℕ, ◌≡◌, refl, ◌∙◌, ap, String, Bytes, true, Option, none, some, ◌++◌, arith, str_eq_refl,
}
use unith_task.Prelude.Result.{Result, ok, raised, exception}
use unith_task.Config.{Settings}
use unith_task.Json.{Codec}
use unith_task.Db.{IdempotencyKey, is_live, find_key}
use unith_task.Db.Table.{where_rows}
use unith_task.Db.Lookup.{find_key-update_id}
use unith_task.Enricher.{Enrichment, enriched, transient, fatal, crashed, Provider}
use unith_task.Consumer.Intake.{Consumer, IntakeEnv, Event, new_key, attempts_for}
use unith_task.Consumer.Intake.Stored.{IsMigrated}
use unith_task.Consumer.Retry.{enrich_with_retry}
use unith_task.Consumer.Handler.{
  observe_enrichment, EnrichEnv, settle, current_provider, run_provider, enrich_event,
  handle_message, enriched_row, error_row,
}
use unith_task.Consumer.Handler.Idempotency.{
  Decodes, intake_of, handle_message_new, find_key-intake_of, settle-OnlyKeys,
}

-- The row that an outcome leaves.
abbrev pub outcome_row : ℕ → Enrichment → IdempotencyKey → IdempotencyKey
outcome_row now (enriched ev) k = enriched_row now ev.enriched_payload k
outcome_row now (transient x) k = k
outcome_row now (fatal x) k = error_row x k
outcome_row now (crashed x) k = k

-- The provider that an outcome leaves: a fatal failure drops it.
abbrev pub outcome_provider : Enrichment → Provider → Option Provider
outcome_provider (fatal x) p = none
outcome_provider _ p = some p

-- Only an exception that is neither transient nor fatal leaves the handler.
abbrev pub outcome_result : Enrichment → Result (Unit {0})
outcome_result (crashed x) = raised (exception x)
outcome_result _ = ok tt

settle_lem :
    (now : ℕ) (m : String) (o : Enrichment) (p : Provider) (c : Consumer) {k : IdempotencyKey}
    → c.provider ≡ some p
    → find_key m c.database ≡ some k
    → let (r, c') = settle now m o c in
      (find_key m c'.database ≡ some (outcome_row now o k))
      × (c'.provider ≡ outcome_provider o p)
      × (r ≡ outcome_result o)
unfolding settle
settle_lem now m (enriched ev) p c here found = (
  find_key-update_id m m (enriched_row now ev.enriched_payload) c.database (λ x. refl)
      ∙ ground (arith, str_eq_refl m, found),
  here,
  refl,
)
settle_lem now m (transient x) p c here found = (found, here, refl)
settle_lem now m (fatal x) p c here found = (
  find_key-update_id m m (error_row x) c.database (λ y. refl)
      ∙ ground (arith, str_eq_refl m, found),
  refl,
  refl,
)
settle_lem now m (crashed x) p c here found = (found, here, refl)

-- The row behind steps 4 and 5.
pub enrich_event_row :
    (s : Settings) (env : EnrichEnv) (e : Event) (c : Consumer) {p : Provider} {k : IdempotencyKey}
    → current_provider s env.openai_installed c.provider ≡ ok p
    → find_key e.message_id c.database ≡ some k
    → let o = enrich_with_retry (λ i. env.enrich p i e.event_type e.payload) in
      find_key e.message_id (enrich_event s env e c).1.database ≡ some (outcome_row env.now o k)
unfolding enrich_event
enrich_event_row s env e c {p} there found =
    ap (λ r. find_key e.message_id (run_provider env e r c).1.database) there
    ∙ (settle_lem env.now e.message_id _ p
        (observe_enrichment env _ (record c { provider = some p })) refl found).0

-- A body within the size limit that decodes to an event with a new id, when there is a provider and
-- the column `reconcile_count` has its server default, leaves one row for the id: enriched with the payload if the calls of the provider end in an
-- event, with the error text if they end in a fatal failure, and received otherwise. Each live
-- subscriber has one new attempt whatever the outcome. The message is acknowledged in any case,
-- the provider is dropped by a fatal failure, and only another exception leaves the handler.
pub handle_message_outcome :
    (s : Settings) (codec : Codec) (body : Bytes) (e : Event) (ienv : IntakeEnv) (eenv : EnrichEnv)
    (c : Consumer) {p : Provider}
    → Decodes s codec ienv body e
    → IsMigrated c.database
    → find_key e.message_id c.database ≡ none
    → current_provider s eenv.openai_installed c.provider ≡ ok p
    → let o = enrich_with_retry (λ i. eenv.enrich p i e.event_type e.payload) in
      let h = handle_message s codec ienv eenv body c in
      (find_key e.message_id h.consumer.database
        ≡ some (outcome_row eenv.now o (new_key ienv.now e)))
      × (h.consumer.database.delivery_attempts
          ≡ c.database.delivery_attempts
            ++ attempts_for ienv.now e.message_id ienv.new_ids 0
                (where_rows is_live c.database.subscribers))
      × (h.consumer.provider ≡ outcome_provider o p)
      × (h.acked ≡ true)
      × (h.result ≡ outcome_result o)
handle_message_outcome s codec body e ienv eenv c {p} d ready new there =
    let c₁ = intake_of ienv e c in
    let o = enrich_with_retry (λ i. eenv.enrich p i e.event_type e.payload) in
    let run = handle_message_new s codec body e ienv eenv c d ready new in
    let c₂ : Consumer = observe_enrichment eenv o (record c₁ { provider = some p }) in
    let step : enrich_event s eenv e c₁ ≡ settle eenv.now e.message_id o c₂ =
      unfold enrich_event in ap (λ r. run_provider eenv e r c₁) there in
    let settled = settle_lem eenv.now e.message_id o p c₂ refl (find_key-intake_of ienv e c new) in
    rw (run, step)
      (
        settled.0,
        (settle-OnlyKeys eenv.now e.message_id o c₂).same_attempts,
        settled.1,
        refl,
        settled.2,
      )
