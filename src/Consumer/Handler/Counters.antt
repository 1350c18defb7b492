-- ===== src/Consumer/Handler/Counters.antt =====
-- What steps 4 and 5 of the handler do to the counters.
use unith_task.Prelude.{some, ℕ, suc, ◌+◌, ◌≤◌, ◌≡◌, refl, String, length, arith}
use unith_task.Prelude.Result.{Result, ok, raised}
use unith_task.Config.{Settings}
use unith_task.Db.{has_key}
use unith_task.Db.Table.{length-update_rows}
use unith_task.Enricher.{Enrichment, enriched, transient, fatal, crashed, Provider}
use unith_task.Consumer.Intake.{ConsumerMetrics, Consumer, Event}
use unith_task.Consumer.Handler.{
  EnrichEnv, settle, current_provider, run_provider, observe_enrichment, enrich_event,
}

-- The handlers whose outcome a counter or the histogram has.
abbrev pub accounted : ConsumerMetrics → ℕ
accounted m = m.transient_errors + m.fatal_errors + length m.durations

-- One handler more is accounted for, at most.
abbrev pub Accounts : Consumer → Consumer → Type 0
Accounts c c' =
    (accounted c'.metrics ≤ suc (accounted c.metrics))
    × (c'.metrics.received_total ≡ c.metrics.received_total)
    × (length c'.database.idempotency_keys ≡ length c.database.idempotency_keys)

settle-Accounts :
    (env : EnrichEnv) (m : String) (o : Enrichment) (c : Consumer)
    → Accounts c (settle env.now m o (observe_enrichment env o c)).1
unfolding settle
settle-Accounts env m (enriched ev) c = (omega arith, refl, length-update_rows (has_key m) _ _)
settle-Accounts env m (transient x) c = (omega arith, refl, refl)
settle-Accounts env m (fatal x) c = (omega arith, refl, length-update_rows (has_key m) _ _)
settle-Accounts env m (crashed x) c = (omega arith, refl, refl)

run_provider-Accounts :
    (env : EnrichEnv) (e : Event) (r : Result Provider) (c : Consumer)
    → Accounts c (run_provider env e r c).1
unfolding run_provider
run_provider-Accounts env e (raised x) c = (omega arith, refl, refl)
run_provider-Accounts env e (ok p) c =
    settle-Accounts env e.message_id _ (record c { provider = some p })

pub enrich_event-Accounts :
    (s : Settings) (env : EnrichEnv) (e : Event) (c : Consumer)
    → Accounts c (enrich_event s env e c).1
unfolding enrich_event
enrich_event-Accounts s env e c =
    run_provider-Accounts env e (current_provider s env.openai_installed c.provider) c
