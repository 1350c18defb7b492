-- ===== src/Consumer/Handler/Others.antt =====
-- What a handler leaves alone: the rows of other events.
use unith_task.Prelude.{ℕ, ◌≡◌, refl, String, false, arith, str_eq}
use unith_task.Prelude.Result.{Result, ok, raised}
use unith_task.Config.{Settings}
use unith_task.Db.{find_key}
use unith_task.Db.Lookup.{find_key-update_id}
use unith_task.Enricher.{Enrichment, enriched, transient, fatal, crashed, Provider}
use unith_task.Consumer.Intake.{Consumer, Event}
use unith_task.Consumer.Handler.{
  EnrichEnv, settle, run_provider, enrich_event, enriched_row, error_row,
}

-- Enrichment of another event leaves the row alone.
settle-find_key :
    (now : ℕ) (j m : String) (o : Enrichment) (c : Consumer)
    → str_eq m j ≡ false
    → find_key m (settle now j o c).1.database ≡ find_key m c.database
unfolding settle
settle-find_key now j m (enriched ev) c ne =
    ground
      (arith, find_key-update_id m j (enriched_row now ev.enriched_payload) c.database (λ x. refl))
settle-find_key now j m (transient x) c ne = refl
settle-find_key now j m (fatal x) c ne =
    ground (arith, find_key-update_id m j (error_row x) c.database (λ y. refl))
settle-find_key now j m (crashed x) c ne = refl

run_provider-find_key :
    (env : EnrichEnv) (e : Event) (m : String) (p : Result Provider) (c : Consumer)
    → str_eq m e.message_id ≡ false
    → find_key m (run_provider env e p c).1.database ≡ find_key m c.database
unfolding run_provider
run_provider-find_key env e m (raised x) c ne = refl
run_provider-find_key env e m (ok p) c ne = settle-find_key env.now e.message_id m _ _ ne

-- The handler of one event changes no row of another.
pub enrich_event-find_key :
    (s : Settings) (env : EnrichEnv) (e : Event) (m : String) (c : Consumer)
    → str_eq m e.message_id ≡ false
    → find_key m (enrich_event s env e c).1.database ≡ find_key m c.database
unfolding enrich_event
enrich_event-find_key s env e m c ne = run_provider-find_key env e m _ c ne
