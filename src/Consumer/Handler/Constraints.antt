-- ===== src/Consumer/Handler/Constraints.antt =====
-- The constraints of the tables behind the handler's writes.
use unith_task.Prelude.{ℕ, ◌≡◌, refl, String, Bool, List, [], ◌∷◌, some, arith}
use unith_task.Prelude.Result.{Result, ok, raised}
use unith_task.Config.{Settings}
use unith_task.Db.{IdempotencyKey, Database, has_key}
use unith_task.Db.Table.{update_rows}
use unith_task.Enricher.{Enrichment, enriched, transient, fatal, crashed, Provider}
use unith_task.Consumer.Intake.{Consumer, Event}
use unith_task.Consumer.Intake.Uniqueness.{IsConsistent, count}
use unith_task.Consumer.Handler.{
  observe_enrichment, EnrichEnv, update_keys, enriched_row, error_row, settle, run_provider,
  enrich_event,
}

count-update_rows :
    {A : Type 0} (p q : A → Bool) (f : A → A) (xs : List A)
    → ((x : A) → p (f x) ≡ p x)
    → count p (update_rows q f xs) ≡ count p xs
unfolding update_rows
count-update_rows p q f [] k = refl
count-update_rows p q f (x ∷ xs) k = ground (arith, k x, count-update_rows p q f xs k)

-- An UPDATE of the events that keeps their ids keeps the constraints.
pub update_keys-IsConsistent :
    (p : IdempotencyKey → Bool) (f : IdempotencyKey → IdempotencyKey) (db : Database)
    → ((x : IdempotencyKey) → (f x).message_id ≡ x.message_id)
    → IsConsistent db
    → IsConsistent (update_keys p f db)
update_keys-IsConsistent p f db k v =
    let same : (m : String)
        → count (has_key m) (update_rows p f db.idempotency_keys)
          ≡ count (has_key m) db.idempotency_keys =
      λ m. count-update_rows (has_key m) p f db.idempotency_keys (λ x. rw (k x)) in
    record {
      subscriber_once = v.subscriber_once;
      key_once = λ m. rw (same m) (v.key_once m);
      pair_refers = λ m i. rw (same m) (v.pair_refers m i);
    }

settle-IsConsistent :
    (now : ℕ) (m : String) (o : Enrichment) (c : Consumer)
    → IsConsistent c.database
    → IsConsistent (settle now m o c).1.database
unfolding settle
settle-IsConsistent now m (enriched ev) c v =
    update_keys-IsConsistent (has_key m) (enriched_row now ev.enriched_payload) c.database
      (λ x. refl) v
settle-IsConsistent now m (transient x) c v = v
settle-IsConsistent now m (fatal x) c v =
    update_keys-IsConsistent (has_key m) (error_row x) c.database (λ y. refl) v
settle-IsConsistent now m (crashed x) c v = v

run_provider-IsConsistent :
    (env : EnrichEnv) (e : Event) (p : Result Provider) (c : Consumer)
    → IsConsistent c.database
    → IsConsistent (run_provider env e p c).1.database
unfolding run_provider
run_provider-IsConsistent env e (raised x) c v = v
run_provider-IsConsistent env e (ok p) c v =
    settle-IsConsistent env.now e.message_id _
      (observe_enrichment env _ (record c { provider = some p })) v

pub enrich_event-IsConsistent :
    (s : Settings) (env : EnrichEnv) (e : Event) (c : Consumer)
    → IsConsistent c.database
    → IsConsistent (enrich_event s env e c).1.database
unfolding enrich_event
enrich_event-IsConsistent s env e c v = run_provider-IsConsistent env e _ c v
