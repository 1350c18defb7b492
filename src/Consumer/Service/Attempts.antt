-- ===== src/Consumer/Service/Attempts.antt =====
-- What the consumer process does to the table of attempts: it adds new ones and changes none.
use mathlib.Core.List
use unith_task.Prelude.{
  ℕ, suc, ◌≡◌, refl, sym, ◌∙◌, String, Bytes, List, [], ◌∷◌, ◌++◌, Option, none, some, inl, inr,
  All, Option-cases,
}
use unith_task.Prelude.Result.{Result, ok, raised}
use unith_task.Config.{Settings}
use unith_task.Json.{Codec}
use unith_task.Db.{Subscriber, DeliveryAttempt, pending, Database, is_live, find_key}
use unith_task.Db.Table.{where_rows}
use unith_task.Delivery.Lifecycle.{stage_of}
use unith_task.Consumer.Intake.{
  Consumer, IntakeEnv, Event, new_attempt, attempts_for, receive, store_event,
}
use unith_task.Consumer.Intake.Stored.{
  IsMigrated, receive_cases, store_event_known, store_event_new,
}
use unith_task.Consumer.Handler.{EnrichEnv}
use unith_task.Consumer.Handler.Idempotency.{enrich_event-OnlyKeys}
use unith_task.Consumer.Reconciler.{
  Change, commit_changes, commit_round, stale_rows, reconcile_rows, Round,
}
use unith_task.Consumer.Service.{
  Service, Step, arrive, resume, restart, begin_round, end_round, pick, load_round, write_round,
  finish_task, step,
}
use unith_task.Consumer.Service.Unique.{start_task-database}

-- Behind the old rows there are new ones, pending and never tried.
pub record Appends (old new : List DeliveryAttempt) : Type 0 where
  pub added : List DeliveryAttempt
  pub extended : new ≡ old ++ added
  pub fresh : All (λ a. stage_of a ≡ (pending, 0)) added

Appends-same : (old new : List DeliveryAttempt) → new ≡ old → Appends old new
Appends-same old new e = record { added = []; extended = e ∙ sym (List.append-nil old); fresh = tt }

-- The attempts, the subscribers and the columns are as before.
abbrev SameOthers : Database → Database → Type 0
SameOthers db db' =
    (db'.delivery_attempts ≡ db.delivery_attempts)
    × (db'.subscribers ≡ db.subscribers)
    × (db'.has_count_default ≡ db.has_count_default)

attempts_for-fresh :
    (now : ℕ) (m : String) (ids : ℕ → ℕ) (n : ℕ) (subs : List Subscriber)
    → All (λ a. stage_of a ≡ (pending, 0)) (attempts_for now m ids n subs)
unfolding attempts_for new_attempt
attempts_for-fresh now m ids n [] = tt
attempts_for-fresh now m ids n (sub ∷ subs) = (refl, attempts_for-fresh now m ids (suc n) subs)

store_event-Appends :
    (env : IntakeEnv) (e : Event) (c : Consumer)
    → IsMigrated c.database
    → Appends c.database.delivery_attempts (store_event env e c).1.database.delivery_attempts
store_event-Appends env e c ready = elim (Option-cases (find_key e.message_id c.database)) [
  | inl new ↦ rw (store_event_new env e c ready new) (record {
    added =
        attempts_for env.now e.message_id env.new_ids 0 (where_rows is_live c.database.subscribers);
    extended = refl;
    fresh = attempts_for-fresh env.now e.message_id env.new_ids 0 _;
  })
  | inr (k, known) ↦ Appends-same _ _ (rw (store_event_known env e c ready known))
]

module _ (s : Settings) (codec : Codec) where
  receive-Appends :
      (env : IntakeEnv) (body : Bytes) (c : Consumer)
      → Appends c.database.delivery_attempts
          (receive s codec env body c).1.database.delivery_attempts
  receive-Appends env body c = elim (receive_cases s codec env body c) [
    | inl (r, e, idle) ↦ Appends-same _ _ (rw e)
    | inr (e, ready, stored) ↦ rw stored (store_event-Appends env e c ready)
  ]

  commit_changes-SameOthers :
      (cs : List (String × Change)) (db : Database) → SameOthers db (commit_changes s codec cs db)
  unfolding commit_changes
  commit_changes-SameOthers [] db = (refl, refl, refl)
  commit_changes-SameOthers ((m, ch) ∷ cs) db = commit_changes-SameOthers cs _

  commit_round-SameOthers :
      (r : Result (List (String × Change))) (db : Database)
      → SameOthers db (commit_round s codec r db)
  commit_round-SameOthers (raised e) db = (refl, refl, refl)
  commit_round-SameOthers (ok cs) db = commit_changes-SameOthers cs db

  finish_task-SameOthers :
      (env : EnrichEnv) (picked : Option (Event × List Event)) (v : Service)
      → SameOthers v.consumer.database (finish_task s codec env picked v).consumer.database
  unfolding finish_task
  finish_task-SameOthers env none v = (refl, refl, refl)
  finish_task-SameOthers env (some (e, rest)) v =
      let h = enrich_event-OnlyKeys s env e v.consumer in
      (h.same_attempts, h.same_subscribers, h.same_default)

  pub load_round-attempts :
      (r : Round) (v : Service) (o : Option (Result (List (String × Change))))
      → (load_round s codec r v o).consumer.database ≡ v.consumer.database
  unfolding load_round
  load_round-attempts r v none = refl
  load_round-attempts r v (some changes) = refl

  write_round-SameOthers :
      (v : Service) (o : Option (Result (List (String × Change))))
      → SameOthers v.consumer.database (write_round s codec v o).consumer.database
  unfolding write_round
  write_round-SameOthers v none = (refl, refl, refl)
  write_round-SameOthers v (some changes) = commit_round-SameOthers changes v.consumer.database

  pub step-Appends :
      (t : Step) (v : Service)
      → Appends v.consumer.database.delivery_attempts
          (step s codec t v).consumer.database.delivery_attempts
  unfolding step
  step-Appends (arrive env body) v =
      rw (start_task-database (receive s codec env body v.consumer) v)
        (receive-Appends env body v.consumer)
  step-Appends (resume i env) v = Appends-same _ _ (finish_task-SameOthers env (pick i v.tasks) v).0
  step-Appends restart v = Appends-same _ _ refl
  step-Appends (begin_round scan publish now) v = Appends-same _ _ (
      rw (
        load_round-attempts
          (reconcile_rows s codec publish (stale_rows s codec scan now v.consumer.database)) v
          v.open_round))
  step-Appends end_round v = Appends-same _ _ (write_round-SameOthers v v.open_round).0

  -- The subscribers and the columns are as before.
  abbrev Leaves : Database → Database → Type 0
  Leaves db db' =
      (db'.subscribers ≡ db.subscribers) × (db'.has_count_default ≡ db.has_count_default)

  receive-Leaves :
      (env : IntakeEnv) (body : Bytes) (c : Consumer)
      → Leaves c.database (receive s codec env body c).1.database
  receive-Leaves env body c = elim (receive_cases s codec env body c) [
    | inl (r, e, idle) ↦ rw e (refl, refl)
    | inr (e, ready, stored) ↦ elim (Option-cases (find_key e.message_id c.database)) [
      | inl new ↦ rw (stored, store_event_new env e c ready new) (refl, refl)
      | inr (k, known) ↦ rw (stored, store_event_known env e c ready known) (refl, refl)
    ]
  ]

  step-Leaves :
      (t : Step) (v : Service) → Leaves v.consumer.database (step s codec t v).consumer.database
  unfolding step
  step-Leaves (arrive env body) v =
      rw (start_task-database (receive s codec env body v.consumer) v)
        (receive-Leaves env body v.consumer)
  step-Leaves (resume i env) v = let h = finish_task-SameOthers env (pick i v.tasks) v in (h.1, h.2)
  step-Leaves restart v = (refl, refl)
  step-Leaves (begin_round scan publish now) v =
      rw
        (load_round-attempts
          (reconcile_rows s codec publish (stale_rows s codec scan now v.consumer.database)) v
          v.open_round)
        (refl, refl)
  step-Leaves end_round v = let h = write_round-SameOthers v v.open_round in (h.1, h.2)

  -- The consumer process writes no subscriber.
  pub step-subscribers :
      (t : Step) (v : Service)
      → (step s codec t v).consumer.database.subscribers ≡ v.consumer.database.subscribers
  step-subscribers t v = (step-Leaves t v).0

  -- It changes no column.
  pub step-IsMigrated :
      (t : Step) (v : Service)
      → IsMigrated v.consumer.database
      → IsMigrated (step s codec t v).consumer.database
  step-IsMigrated t v ready = (step-Leaves t v).1 ∙ ready
