-- ===== src/System/Unenriched.antt =====
-- A worker that overtakes the enrichment: the attempts of an event are pending from its intake on.
use mathlib.Core.Option
use unith_task.Prelude.{ℕ, ◌+◌, ◌≡◌, ◌∙◌, ap, true, none, some, arith, String}
use unith_task.Prelude.Result.{ok}
use unith_task.Config.{Settings}
use unith_task.Runtime.{Runtime}
use unith_task.Db.{
  Subscriber, IdempotencyKey, delivered, DeliveryAttempt, Database, is_live, find_key, find_attempt,
  find_subscriber, has_key,
}
use unith_task.Db.Table.{find_row}
use unith_task.Delivery.Lifecycle.{stage, stage_of}
use unith_task.Delivery.Sender.{DeliveryResult, deliver}
use unith_task.Delivery.Claim.{DeliveryMetrics, Worker, Env, Claimed}
use unith_task.Delivery.Worker.{judge, attempting, observe_delivery, result_row, deliver_attempt}
use unith_task.Delivery.Worker.Frame.{Effect-tables, deliver_attempt-Effect}
use unith_task.Delivery.Worker.Outcome.{deliver_attempt_sent}
use unith_task.Enricher.{EnrichedEvent, Enrichment, Provider}
use unith_task.System.Tables.{find_attempt-table}
use unith_task.Consumer.Intake.{Consumer, Event}
use unith_task.Consumer.Retry.{enrich_with_retry}
use unith_task.Consumer.Handler.{EnrichEnv, enriched_row, current_provider, enrich_event}
use unith_task.Consumer.Handler.Idempotency.{enrich_event-OnlyKeys}
use unith_task.Consumer.Handler.Outcomes.{outcome_row, enrich_event_row}

judge_accepted :
    (s : Settings) (env : Env) (n : ℕ) (r : DeliveryResult) (m : DeliveryMetrics)
    → r.success ≡ true
    → (judge s env n r m).new_status ≡ delivered
unfolding judge
judge_accepted s env n r m h = ground arith

same_keys :
    (m : String) (db db' : Database)
    → db'.idempotency_keys ≡ db.idempotency_keys
    → find_key m db' ≡ find_key m db
unfolding find_key
same_keys m db db' e = ap (find_row (has_key m)) e

-- A worker has claimed an attempt of an event that is stored and not yet enriched, and the
-- subscriber accepts what it sends: the raw payload, before the provider has answered. Then the
-- event's handler comes back with an enriched event. The row has the enriched payload, and the
-- attempt is delivered.
pub sent_unenriched :
    (s : Settings) (rt : Runtime) (env : Env) (c : Claimed) (w : Worker) (eenv : EnrichEnv)
    (e : Event) (v : Consumer) {a : DeliveryAttempt} {sub : Subscriber} {ik : IdempotencyKey}
    {r : DeliveryResult} {p : Provider} {ev : EnrichedEvent}
    → c.idempotency_key ≡ some ik
    → find_key e.message_id w.database ≡ some ik
    → ik.enriched_payload ≡ none
    → find_attempt c.attempt.id w.database ≡ some a
    → find_subscriber c.attempt.subscriber_id w.database ≡ some sub
    → is_live sub ≡ true
    → deliver rt env.http c.attempt.id sub.endpoint sub.secret ik.event_type ik.raw_payload
        env.sent_at
      ≡ ok r
    → r.success ≡ true
    → current_provider s eenv.openai_installed v.provider ≡ ok p
    → enrich_with_retry (λ i. eenv.enrich p i e.event_type e.payload) ≡ Enrichment.enriched ev
    → let sent = (deliver_attempt s rt env c w).1.database in
      let back = (enrich_event s eenv e (record v { database = sent })).1.database in
      (find_key e.message_id back ≡ some (enriched_row eenv.now ev.enriched_payload ik))
      × (stage c.attempt.id back ≡ some (delivered, c.attempt.attempt_count + 1))
sent_unenriched s rt env c w eenv e v {a} {sub} {ik} {r} {p} {ev} loaded stored raw there found live
      sent fine ready enriched =
    let out =
      deliver_attempt_sent s rt env c w c.attempt.id {sub = sub} {ik = ik} {r = r} found live loaded
        (rw raw sent) in
    let db = (deliver_attempt s rt env c w).1.database in
    let keys =
      (Effect-tables c.attempt.id c.attempt.id w.database db (deliver_attempt s rt env c w).0
        (deliver_attempt-Effect s rt env c w)).1 in
    let v' : Consumer = record v { database = db } in
    let n = c.attempt.attempt_count + 1 in
    let m = observe_delivery env (attempting w.metrics) in
    let row : find_attempt c.attempt.id db ≡ some (result_row env n r (judge s env n r m) a) =
      ground (arith, out.1, there) in
    (
      enrich_event_row s eenv e v' ready (same_keys e.message_id w.database db keys ∙ stored)
          ∙ ap (λ o. some (outcome_row eenv.now o ik)) enriched,
      ap (Option.map stage_of) (
            find_attempt-table c.attempt.id db _ (enrich_event-OnlyKeys s eenv e v').same_attempts
            ∙ row)
          ∙ ap (λ st. some (st, n)) (judge_accepted s env n r m fine),
    )
