-- ===== src/Consumer/Handler/Permanence.antt =====
-- What a handler does not change of a stored event.
use unith_task.Prelude.{
  ℕ, ◌≡◌, refl, ◌∙◌, inl, inr, String, Bytes, Bool, true, some, arith, not, ◌||◌, Option-cases,
  Bool-cases,
}
use unith_task.Prelude.Result.{Result, ok, raised}
use unith_task.Config.{Settings}
use unith_task.Json.{Value, Codec}
use unith_task.Db.{IdempotencyKey, dispatched, Database, has_key, find_key}
use unith_task.Db.Table.{find_row-append}
use unith_task.Db.Lookup.{find_key-update}
use unith_task.Enricher.{Enrichment, enriched, transient, fatal, crashed, Provider}
use unith_task.Consumer.Intake.{Consumer, IntakeEnv, Event, receive, store_event}
use unith_task.Consumer.Intake.Stored.{
  IsMigrated, receive_cases, store_event_known, store_event_new,
}
use unith_task.Consumer.Handler.{
  observe_enrichment, EnrichEnv, update_keys, enriched_row, error_row, settle, run_provider,
  enrich_event,
}
use unith_task.Consumer.Reconciler.{Change, abandon, bump, changed_row}
use unith_task.Api.Deliveries.{same_event_status}

-- The later row of an event is of the same message, and not `dispatched` if it was not.
pub record IsSameEvent (k k' : IdempotencyKey) : Type 0 where
  pub same_id : k'.message_id ≡ k.message_id
  pub same_type : k'.event_type ≡ k.event_type
  pub same_payload : k'.raw_payload ≡ k.raw_payload
  pub same_arrival : k'.received_at ≡ k.received_at
  pub undispatched :
      not (same_event_status k'.status dispatched) || same_event_status k.status dispatched ≡ true

IsSameEvent-refl : (k : IdempotencyKey) → IsSameEvent k k
IsSameEvent-refl k = record {
  same_id = refl;
  same_type = refl;
  same_payload = refl;
  same_arrival = refl;
  undispatched = ground arith;
}

IsSameEvent-trans : (k l m : IdempotencyKey) → IsSameEvent k l → IsSameEvent l m → IsSameEvent k m
IsSameEvent-trans k l m h i = record {
  same_id = i.same_id ∙ h.same_id;
  same_type = i.same_type ∙ h.same_type;
  same_payload = i.same_payload ∙ h.same_payload;
  same_arrival = i.same_arrival ∙ h.same_arrival;
  undispatched = ground (arith, h.undispatched, i.undispatched);
}

abbrev pub Stays : String → Database → Database → Type 0
Stays m db db' =
    (k : IdempotencyKey)
    → find_key m db ≡ some k
    → (k' : IdempotencyKey) × (find_key m db' ≡ some k') × IsSameEvent k k'

pub Stays-same : (m : String) (db db' : Database) → find_key m db' ≡ find_key m db → Stays m db db'
Stays-same m db db' e k found = (k, e ∙ found, IsSameEvent-refl k)

pub Stays-trans : (m : String) (a b c : Database) → Stays m a b → Stays m b c → Stays m a c
Stays-trans m a b c h i k found =
    let (l, found', one) = h k found in
    let (n, found'', two) = i l found' in (n, found'', IsSameEvent-trans k l n one two)

pub Stays-update :
    (m : String) (p : IdempotencyKey → Bool) (f : IdempotencyKey → IdempotencyKey) (db : Database)
    → ((k : IdempotencyKey) → IsSameEvent k (f k))
    → Stays m db (update_keys p f db)
Stays-update m p f db keep k found =
    let after = find_key-update m p f db (λ x. (keep x).same_id) in
    elim (Bool-cases (p k)) [
      | inl hit ↦ (f k, ground (arith, after, found, hit), keep k)
      | inr miss ↦ (k, ground (arith, after, found, miss), IsSameEvent-refl k)
    ]

enriched_row-IsSameEvent :
    (now : ℕ) (payload : Value) (k : IdempotencyKey) → IsSameEvent k (enriched_row now payload k)
enriched_row-IsSameEvent now payload k = record {
  same_id = refl;
  same_type = refl;
  same_payload = refl;
  same_arrival = refl;
  undispatched = refl;
}

error_row-IsSameEvent : (exc : String) (k : IdempotencyKey) → IsSameEvent k (error_row exc k)
error_row-IsSameEvent exc k = record {
  same_id = refl;
  same_type = refl;
  same_payload = refl;
  same_arrival = refl;
  undispatched = ground arith;
}

pub changed_row-IsSameEvent : (ch : Change) (k : IdempotencyKey) → IsSameEvent k (changed_row ch k)
changed_row-IsSameEvent (abandon n) k = record {
  same_id = refl;
  same_type = refl;
  same_payload = refl;
  same_arrival = refl;
  undispatched = refl;
}
changed_row-IsSameEvent (bump n) k = record {
  same_id = refl;
  same_type = refl;
  same_payload = refl;
  same_arrival = refl;
  undispatched = ground arith;
}

settle-Stays :
    (m : String) (now : ℕ) (j : String) (o : Enrichment) (c : Consumer)
    → Stays m c.database (settle now j o c).1.database
unfolding settle
settle-Stays m now j (enriched ev) c =
    Stays-update m (has_key j) (enriched_row now ev.enriched_payload) c.database
      (enriched_row-IsSameEvent now ev.enriched_payload)
settle-Stays m now j (transient x) c = Stays-same m c.database c.database refl
settle-Stays m now j (fatal x) c =
    Stays-update m (has_key j) (error_row x) c.database (error_row-IsSameEvent x)
settle-Stays m now j (crashed x) c = Stays-same m c.database c.database refl

run_provider-Stays :
    (m : String) (env : EnrichEnv) (e : Event) (p : Result Provider) (c : Consumer)
    → Stays m c.database (run_provider env e p c).1.database
unfolding run_provider
run_provider-Stays m env e (raised x) c = Stays-same m c.database c.database refl
run_provider-Stays m env e (ok p) c =
    settle-Stays m env.now e.message_id _
      (observe_enrichment env _ (record c { provider = some p }))

store_event-Stays :
    (m : String) (env : IntakeEnv) (e : Event) (c : Consumer)
    → IsMigrated c.database
    → Stays m c.database (store_event env e c).1.database
unfolding find_key
store_event-Stays m env e c ready k found = elim (Option-cases (find_key e.message_id c.database)) [
  | inl new ↦ (
    k,
    rw (store_event_new env e c ready new)
        (rw (find_row-append (has_key m) c.database.idempotency_keys) (rw found refl)),
    IsSameEvent-refl k,
  )
  | inr (l, known) ↦ (k, rw (store_event_known env e c ready known) found, IsSameEvent-refl k)
]

pub enrich_event-Stays :
    (m : String) (s : Settings) (env : EnrichEnv) (e : Event) (c : Consumer)
    → Stays m c.database (enrich_event s env e c).1.database
unfolding enrich_event
enrich_event-Stays m s env e c = run_provider-Stays m env e _ c

pub receive-Stays :
    (m : String) (s : Settings) (codec : Codec) (env : IntakeEnv) (body : Bytes) (c : Consumer)
    → Stays m c.database (receive s codec env body c).1.database
receive-Stays m s codec env body c = elim (receive_cases s codec env body c) [
  | inl (r, e, idle) ↦ rw e (Stays-same m c.database c.database refl)
  | inr (e, ready, stored) ↦ rw stored (store_event-Stays m env e c ready)
]
