-- ===== src/Consumer/Service/Stuck.antt =====
-- An event that is stored, not enriched, and has no handler at work on it.
use mathlib.Core.Option
use unith_task.Prelude.{
  ℕ, zero, suc, ◌≡◌, refl, ◌∙◌, ap, String, Bytes, Bool, true, false, Option, none, some, List, [],
  ◌∷◌, arith, str_eq, str_eq_iff, if◌then◌else◌, All, inl, inr, Option-cases, Bool-cases,
}
use unith_task.Prelude.Result.{Result, ok, raised}
use unith_task.Config.{Settings}
use unith_task.Json.{Codec}
use unith_task.Db.{EventStatus, IdempotencyKey, Database, has_key, find_key}
use unith_task.Db.Lookup.{find_key-update}
use unith_task.Consumer.Intake.{
  Consumer, IntakeEnv, Event, Intake, too_large, invalid_json, duplicate, accepted, refused,
  receive, store_event, new_key,
}
use unith_task.Consumer.Intake.Stored.{
  IsMigrated, is_accepted, receive_cases, store_event_known, store_event_new, find_key-insert,
}
use unith_task.Consumer.Handler.{EnrichEnv}
use unith_task.Consumer.Handler.Others.{enrich_event-find_key}
use unith_task.Consumer.Reconciler.{
  Change, abandon, bump, changed_row, commit_changes, commit_round, stale_rows, reconcile_rows,
  Round,
}
use unith_task.Consumer.Service.{
  Service, Step, arrive, resume, restart, begin_round, end_round, pick, put_back, start_task,
  load_round, write_round, finish_task, step, run_steps,
}

abbrev pub is_enriched : EventStatus → Bool
is_enriched EventStatus.enriched = true
is_enriched _ = false

-- A row for the id, not enriched.
abbrev pub IsWaiting : String → Database → Type 0
IsWaiting m db = (k : IdempotencyKey) × (find_key m db ≡ some k) × (is_enriched k.status ≡ false)

-- … and no handler waits for the provider with it.
pub record IsStuck (m : String) (v : Service) : Type 0 where
  pub waiting : IsWaiting m v.consumer.database
  pub unattended : All (λ e. str_eq e.message_id m ≡ false) v.tasks

-- The reconciler writes no status but `failed`.
commit_changes-IsWaiting :
    (s : Settings) (codec : Codec) (m : String) (cs : List (String × Change)) (db : Database)
    → IsWaiting m db
    → IsWaiting m (commit_changes s codec cs db)
unfolding commit_changes
commit_changes-IsWaiting s codec m [] db h = h
commit_changes-IsWaiting s codec m ((j, abandon n) ∷ cs) db (k, found, open_) =
    commit_changes-IsWaiting s codec m cs _ (
      if has_key j k then changed_row (abandon n) k else k,
      find_key-update m (has_key j) (changed_row (abandon n)) db (λ x. refl)
          ∙ ap (Option.map _) found,
      ground arith,
    )
commit_changes-IsWaiting s codec m ((j, bump n) ∷ cs) db (k, found, open_) =
    commit_changes-IsWaiting s codec m cs _ (
      if has_key j k then changed_row (bump n) k else k,
      find_key-update m (has_key j) (changed_row (bump n)) db (λ x. refl) ∙ ap (Option.map _) found,
      ground arith,
    )

commit_round-IsWaiting :
    (s : Settings) (codec : Codec) (m : String) (r : Result (List (String × Change)))
    (db : Database)
    → IsWaiting m db
    → IsWaiting m (commit_round s codec r db)
commit_round-IsWaiting s codec m (raised e) db h = h
commit_round-IsWaiting s codec m (ok cs) db h = commit_changes-IsWaiting s codec m cs db h

str_eq_flip : (a b : String) → str_eq a b ≡ false → str_eq b a ≡ false
str_eq_flip a b h = ground (arith, str_eq_iff a b, str_eq_iff b a)

stored_apart :
    (m j : String) (db : Database) {k : IdempotencyKey}
    → find_key m db ≡ some k
    → find_key j db ≡ none
    → str_eq j m ≡ false
stored_apart m j db found new = elim (Bool-cases (str_eq j m)) [
  | inl eq ↦ absurd (cc (ap (λ i. find_key i db) ((str_eq_iff j m).0 eq)))
  | inr ne ↦ ne
]

abbrev AllPicked : (Event → Type 0) → Option (Event × List Event) → Type 0
AllPicked P none = Unit
AllPicked P (some (t, rest)) = P t × All P rest

AllPicked-put_back :
    (P : Event → Type 0) (x : Event) (o : Option (Event × List Event))
    → P x
    → AllPicked P o
    → AllPicked P (put_back x o)
AllPicked-put_back P x none px h = tt
AllPicked-put_back P x (some (t, rest)) px h = (h.0, (px, h.1))

-- The picked task and the others are tasks.
AllPicked-pick : (P : Event → Type 0) (i : ℕ) (es : List Event) → All P es → AllPicked P (pick i es)
unfolding pick
AllPicked-pick P i [] h = tt
AllPicked-pick P zero (x ∷ es) h = h
AllPicked-pick P (suc i) (x ∷ es) h =
    AllPicked-put_back P x (pick i es) h.0 (AllPicked-pick P i es h.1)

module _ (s : Settings) (codec : Codec) (m : String) where
  start_task_same :
      (r : Intake) (c : Consumer) (v : Service)
      → is_accepted r ≡ false
      → IsStuck m (record v { consumer = c })
      → IsStuck m (start_task (r, c) v)
  unfolding start_task
  start_task_same (accepted e) c v idle h = absurd (cc)
  start_task_same too_large c v idle h = h
  start_task_same invalid_json c v idle h = h
  start_task_same duplicate c v idle h = h
  start_task_same refused c v idle h = h

  store_event-IsStuck :
      (env : IntakeEnv) (e : Event) (v : Service)
      → IsMigrated v.consumer.database
      → IsStuck m v
      → IsStuck m (start_task (store_event env e v.consumer) v)
  unfolding start_task find_key
  store_event-IsStuck env e v ready h =
      let c = v.consumer in
      elim (Option-cases (find_key e.message_id c.database)) [
        | inr (k, known) ↦
            rw (store_event_known env e c ready known)
              (record { waiting = h.waiting; unattended = h.unattended })
        | inl new ↦
            let (k, found, open_) = h.waiting in
            let apart = stored_apart m e.message_id c.database found new in
            rw (store_event_new env e c ready new) (record {
              waiting = (
                k,
                find_key-insert env.now e m c.database new
                    ∙ ap (λ b. if b then some (new_key env.now e) else find_key m c.database) apart
                    ∙ found,
                open_,
              );
              unattended = (apart, h.unattended);
            })
      ]

  arrive-IsStuck :
      (env : IntakeEnv) (body : Bytes) (v : Service)
      → IsStuck m v
      → IsStuck m (start_task (receive s codec env body v.consumer) v)
  arrive-IsStuck env body v h = elim (receive_cases s codec env body v.consumer) [
    | inl (r, e, idle) ↦ rw e (
        start_task_same r v.consumer v idle
          (record { waiting = h.waiting; unattended = h.unattended }))
    | inr (e, ready, stored) ↦ rw stored (store_event-IsStuck env e v ready h)
  ]

  load_round-IsStuck :
      (r : Round) (v : Service) (o : Option (Result (List (String × Change))))
      → IsStuck m v
      → IsStuck m (load_round s codec r v o)
  unfolding load_round
  load_round-IsStuck r v none h = record { waiting = h.waiting; unattended = h.unattended }
  load_round-IsStuck r v (some changes) h = h

  write_round-IsStuck :
      (v : Service) (o : Option (Result (List (String × Change))))
      → IsStuck m v
      → IsStuck m (write_round s codec v o)
  unfolding write_round
  write_round-IsStuck v none h = h
  write_round-IsStuck v (some changes) h = record {
    waiting = commit_round-IsWaiting s codec m changes v.consumer.database h.waiting;
    unattended = h.unattended;
  }

  finish_task-IsStuck :
      (env : EnrichEnv) (picked : Option (Event × List Event)) (v : Service)
      → AllPicked (λ e. str_eq e.message_id m ≡ false) picked
      → IsStuck m v
      → IsStuck m (finish_task s codec env picked v)
  unfolding finish_task
  finish_task-IsStuck env none v away h = h
  finish_task-IsStuck env (some (t, rest)) v away h =
      let (k, found, open_) = h.waiting in
      record {
        waiting = (
          k,
          enrich_event-find_key s env t m v.consumer (str_eq_flip t.message_id m away.0) ∙ found,
          open_,
        );
        unattended = away.1;
      }

  step-IsStuck : (t : Step) (v : Service) → IsStuck m v → IsStuck m (step s codec t v)
  unfolding step
  step-IsStuck (arrive env body) v h = arrive-IsStuck env body v h
  step-IsStuck (resume i env) v h =
      finish_task-IsStuck env (pick i v.tasks) v (AllPicked-pick _ i v.tasks h.unattended) h
  step-IsStuck restart v h = record { waiting = h.waiting; unattended = tt }
  step-IsStuck (begin_round scan publish now) v h =
      load_round-IsStuck
        (reconcile_rows s codec publish (stale_rows s codec scan now v.consumer.database)) v
        v.open_round h
  step-IsStuck end_round v h = write_round-IsStuck v v.open_round h

  -- Once an event is stored and not enriched, and no handler is at work on it, it is never enriched,
  -- whatever messages arrive (those of the reconciler for this event among them), however the
  -- provider answers, and however often the reconciler makes its round,
  -- alone or with other steps between its query and its commit.
  pub run_steps-IsStuck :
      (ts : List Step) (v : Service) → IsStuck m v → IsStuck m (run_steps s codec ts v)
  unfolding run_steps
  run_steps-IsStuck [] v h = h
  run_steps-IsStuck (t ∷ ts) v h = run_steps-IsStuck ts (step s codec t v) (step-IsStuck t v h)
