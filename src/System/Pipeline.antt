-- ===== src/System/Pipeline.antt =====
-- From the arrival of a message to its delivery.
use mathlib.Core.Path.{subst}
use unith_task.Db.Lookup.{IsKeyed}
use unith_task.Prelude.{
  ℕ, suc, ◌≡◌, refl, ap, ◌∙◌, String, Bytes, true, none, some, List, [], ◌∷◌, ◌++◌, All, All-map,
}
use unith_task.Config.{Settings}
use unith_task.Json.{Codec}
use unith_task.Runtime.{Runtime}
use unith_task.Db.{
  Subscriber, IdempotencyKey, DeliveryAttempt, Database, is_live, find_key, find_attempt,
  find_subscriber,
}
use unith_task.Db.Keys.{HasKeys, HasKeys-IsKeyed}
use unith_task.Db.Table.{where_rows, All-where_rows, All-where_rows_of}
use unith_task.Consumer.Intake.{IntakeEnv, Event, new_key, new_attempt, attempts_for, receive}
use unith_task.Consumer.Intake.Stored.{IsMigrated, receive_event, store_event_new}
use unith_task.Consumer.Handler.Idempotency.{Decodes, intake_of, find_key-intake_of}
use unith_task.Consumer.Service.{Service, arrive, step}
use unith_task.Consumer.Service.Unique.{start_task-database}
use unith_task.System.{System, database_of}
use unith_task.System.Delivering.{CanDeliver}
use unith_task.System.Liveness.{IsDeliverable-CanDeliver}

All-append_right :
    (P : DeliveryAttempt → Type 0) (xs ys : List DeliveryAttempt) → All P (xs ++ ys) → All P ys
All-append_right P [] ys h = h
All-append_right P (x ∷ xs) ys h = All-append_right P xs ys h.1

-- The id of a subscriber finds it.
abbrev pub HasSubscribers : Database → Type 0
HasSubscribers db = All (λ s. find_subscriber s.id db ≡ some s) db.subscribers

-- An attempt for the subscriber that can be delivered.
abbrev pub Reaches : Settings → Codec → Runtime → System → String → Subscriber → Type 0
Reaches s codec rt v message_id sub =
    (a : DeliveryAttempt) × (find_attempt a.id (database_of v) ≡ some a)
    × (a.message_id ≡ message_id)
    × (a.subscriber_id ≡ sub.id)
    × CanDeliver s codec rt a.id v

-- The tables behind the arrival of a new message.
arrival :
    (s : Settings) (codec : Codec) (env : IntakeEnv) (body : Bytes) (e : Event) (v : Service)
    → Decodes s codec env body e
    → IsMigrated v.consumer.database
    → find_key e.message_id v.consumer.database ≡ none
    → (step s codec (arrive env body) v).consumer.database ≡ (intake_of env e v.consumer).database
unfolding step
arrival s codec env body e v d ready new =
    start_task-database (receive s codec env body v.consumer) v
    ∙ ap (λ r. r.1.database)
        (receive_event s codec env body v.consumer d.small d.loaded d.parsed
          ∙ store_event_new env e v.consumer ready new)

module _ (s : Settings) (codec : Codec) (rt : Runtime) where
  each-Reaches :
      (v : System) (m : String) (now : ℕ) (ids : ℕ → ℕ) (n : ℕ) (k : IdempotencyKey)
      (subs : List Subscriber)
      → HasKeys (database_of v)
      → find_key m (database_of v) ≡ some k
      → All (λ sub. find_subscriber sub.id (database_of v) ≡ some sub) subs
      → All (λ sub. is_live sub ≡ true) subs
      → All (λ a. find_attempt a.id (database_of v) ≡ some a) (attempts_for now m ids n subs)
      → All (Reaches s codec rt v m) subs
  unfolding attempts_for new_attempt
  each-Reaches v m now ids n k [] keys stored known live found = tt
  each-Reaches v m now ids n k (sub ∷ subs) keys stored known live found = (
    (
      new_attempt now m (ids n) sub,
      found.0,
      refl,
      refl,
      IsDeliverable-CanDeliver s codec rt (ids n) v keys (record {
        row = new_attempt now m (ids n) sub;
        found = found.0;
        event = k;
        stored = stored;
        subscriber = sub;
        present = known.0;
        live = live.0;
      }),
    ),
    each-Reaches v m now ids (suc n) k subs keys stored known.1 live.1 found.1,
  )

  -- A message that decodes and whose id is new arrives, in any state of the system whose column
  -- `reconcile_count` has its server default and whose subscribers are found by their ids, and the
  -- ids that it draws are new. Then for each live subscriber there is an attempt of this message, and
  -- the processes can take steps, from there, that end with it delivered.
  pub arrive-Reaches :
      (v : System) (env : IntakeEnv) (body : Bytes) (e : Event)
      → Decodes s codec env body e
      → IsMigrated (database_of v)
      → find_key e.message_id (database_of v) ≡ none
      → HasSubscribers (database_of v)
      → HasKeys (step s codec (arrive env body) v.service).consumer.database
      → All
          (Reaches s codec rt
            (record v { service = step s codec (arrive env body) v.service })
            e.message_id)
          (where_rows is_live (database_of v).subscribers)
  unfolding find_subscriber
  arrive-Reaches v env body e d ready new known keys =
      let c = v.service.consumer in
      let subs = where_rows is_live c.database.subscribers in
      let x = record v { service = step s codec (arrive env body) v.service } in
      let db' = (intake_of env e c).database in
      let same : database_of x ≡ db' = arrival s codec env body e v.service d ready new in
      let fresh = attempts_for env.now e.message_id env.new_ids 0 subs in
      let keyed =
        All-append_right (λ a. find_attempt a.id db' ≡ some a) c.database.delivery_attempts fresh
          (subst IsKeyed same (HasKeys-IsKeyed (database_of x) keys)) in
      each-Reaches x e.message_id env.now env.new_ids 0 (new_key env.now e) subs keys
        (ap (find_key e.message_id) same ∙ find_key-intake_of env e c new)
        (All-map (λ sub. find_subscriber sub.id c.database ≡ some sub) _ subs
          (λ sub h. ap (find_subscriber sub.id) same ∙ h)
          (All-where_rows_of (λ sub. find_subscriber sub.id c.database ≡ some sub) is_live
            c.database.subscribers known))
        (All-where_rows is_live c.database.subscribers)
        (All-map (λ a. find_attempt a.id db' ≡ some a) _ fresh
          (λ a h. ap (find_attempt a.id) same ∙ h) keyed)
