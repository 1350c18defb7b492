-- ===== src/Consumer/Service/Overwrite.antt =====
-- A round of the reconciler that a handler overtakes.
use unith_task.Prelude.{ℕ, ◌≡◌, refl, ◌∙◌, ap, String, false, some, List, [], ◌∷◌, All, str_eq}
use unith_task.Prelude.Result.{ok}
use unith_task.Config.{Settings}
use unith_task.Json.{Codec}
use unith_task.Db.{IdempotencyKey, Database, find_key}
use unith_task.Enricher.{EnrichedEvent, Enrichment, Provider}
use unith_task.Consumer.Intake.{Event}
use unith_task.Consumer.Retry.{enrich_with_retry}
use unith_task.Consumer.Handler.{EnrichEnv, enriched_row, current_provider, enrich_event}
use unith_task.Consumer.Handler.Outcomes.{outcome_row, enrich_event_row}
use unith_task.Consumer.Reconciler.{Change, abandon, changed_row, commit_changes}
use unith_task.Consumer.Reconciler.Effect.{commit_one, commit_apart}
use unith_task.Consumer.Service.{
  Service, resume, end_round, pick, finish_task, write_round, run_steps, step,
}

module _ (s : Settings) (codec : Codec) where
  commit_changes_apart :
      (m : String) (cs : List (String × Change)) (db : Database)
      → All (λ c. str_eq m c.0 ≡ false) cs
      → find_key m (commit_changes s codec cs db) ≡ find_key m db
  unfolding commit_changes
  commit_changes_apart m [] db h = refl
  commit_changes_apart m ((j, ch) ∷ cs) db h =
      commit_changes_apart m cs (commit_changes s codec ((j, ch) ∷ []) db) h.1
      ∙ commit_apart s codec m j ch db h.0

  -- While a round whose first change gives an event up, and whose others are of other events, waits
  -- for its commit, a handler of the event comes back from the provider with an enriched event. The commit does not ask for the status again: the
  -- event has the enriched payload, and is failed.
  pub abandoned_overwrites :
      (v : Service) (i n : ℕ) (env : EnrichEnv) (e : Event) (rest : List Event)
      (cs : List (String × Change)) {p : Provider} {k : IdempotencyKey} {ev : EnrichedEvent}
      → v.open_round ≡ some (ok ((e.message_id, abandon n) ∷ cs))
      → All (λ c. str_eq e.message_id c.0 ≡ false) cs
      → pick i v.tasks ≡ some (e, rest)
      → find_key e.message_id v.consumer.database ≡ some k
      → current_provider s env.openai_installed v.consumer.provider ≡ ok p
      → enrich_with_retry (λ j. env.enrich p j e.event_type e.payload) ≡ Enrichment.enriched ev
      → find_key e.message_id
          (run_steps s codec (resume i env ∷ end_round ∷ []) v).consumer.database
        ≡ some (changed_row (abandon n) (enriched_row env.now ev.enriched_payload k))
  unfolding run_steps step finish_task write_round commit_changes
  abandoned_overwrites v i n env e rest cs {k} {ev} opened others picked found there enriched =
      let db = (enrich_event s env e v.consumer).1.database in
      let row : find_key e.message_id db ≡ some (enriched_row env.now ev.enriched_payload k) =
        enrich_event_row s env e v.consumer there found
        ∙ ap (λ o. some (outcome_row env.now o k)) enriched in
      rw (picked, opened)
        (commit_changes_apart e.message_id cs
            (commit_changes s codec ((e.message_id, abandon n) ∷ []) db) others
          ∙ commit_one s codec e.message_id (abandon n) db row)
