-- ===== src/Consumer/Service/Counters.antt =====
-- The counters of the consumer process, against its waiting handlers and the stored events.
use unith_task.Prelude.{
  ℕ, zero, suc, ◌+◌, ◌≤◌, ◌≡◌, refl, ap, String, List, [], ◌∷◌, Option, none, some, inl, inr,
  length, length-append, arith, false, Option-cases, ◌∙◌,
}
use unith_task.Prelude.Result.{Result, ok, raised}
use unith_task.Config.{Settings}
use unith_task.Json.{Codec}
use unith_task.Db.{Database, has_key, find_key}
use unith_task.Db.Table.{length-update_rows}
use unith_task.Consumer.Intake.{
  IntakeEnv, Event, Intake, accepted, too_large, invalid_json, duplicate, refused, store_event,
}
use unith_task.Consumer.Intake.Stored.{
  IsMigrated, is_accepted, receive_cases, store_event_known, store_event_new,
}
use unith_task.Consumer.Handler.{EnrichEnv}
use unith_task.Consumer.Handler.Counters.{accounted, enrich_event-Accounts}
use unith_task.Consumer.Reconciler.{
  Change, changed_row, commit_changes, commit_round, stale_rows, reconcile_rows, Round,
}
use unith_task.Consumer.Service.{
  Service, Step, arrive, resume, restart, begin_round, end_round, pick, put_back, start_task,
  load_round, write_round, finish_task, step, run_steps,
}

-- The handlers that wait and those that are accounted for are at most the events received, and
-- these are at most the stored rows.
abbrev pub IsCounted : Service → Type 0
IsCounted v =
    (length v.tasks + accounted v.consumer.metrics ≤ v.consumer.metrics.received_total)
    × (v.consumer.metrics.received_total ≤ length v.consumer.database.idempotency_keys)

-- A task that is picked is one of the tasks.
abbrev IsPicked : Option (Event × List Event) → ℕ → Type 0
IsPicked none n = Unit {0}
IsPicked (some (e, rest)) n = n ≡ suc (length rest)

put_back-IsPicked :
    (e : Event) (o : Option (Event × List Event)) (n : ℕ)
    → IsPicked o n
    → IsPicked (put_back e o) (suc n)
put_back-IsPicked e none n h = tt
put_back-IsPicked e (some (t, rest)) n h = ap suc h

pick-IsPicked : (i : ℕ) (es : List Event) → IsPicked (pick i es) (length es)
unfolding pick
pick-IsPicked i [] = tt
pick-IsPicked zero (e ∷ es) = refl
pick-IsPicked (suc i) (e ∷ es) = put_back-IsPicked e (pick i es) (length es) (pick-IsPicked i es)

idle-IsCounted :
    (r : Intake) (v : Service)
    → is_accepted r ≡ false
    → IsCounted v
    → IsCounted (start_task (r, v.consumer) v)
unfolding start_task
idle-IsCounted (accepted e) v idle h = cc
idle-IsCounted too_large v idle h = h
idle-IsCounted invalid_json v idle h = h
idle-IsCounted duplicate v idle h = h
idle-IsCounted refused v idle h = h

store_event-IsCounted :
    (env : IntakeEnv) (e : Event) (v : Service)
    → IsMigrated v.consumer.database
    → IsCounted v
    → IsCounted (start_task (store_event env e v.consumer) v)
unfolding start_task
store_event-IsCounted env e v ready h =
    elim (Option-cases (find_key e.message_id v.consumer.database)) [
      | inl new ↦ rw (store_event_new env e v.consumer ready new) (
        omega (arith, h.0),
        omega (arith, h.1, length-append v.consumer.database.idempotency_keys (_ ∷ [])),
      )
      | inr (k, known) ↦ rw (store_event_known env e v.consumer ready known) h
    ]

module _ (s : Settings) (codec : Codec) where
  commit_changes-length :
      (cs : List (String × Change)) (db : Database)
      → length (commit_changes s codec cs db).idempotency_keys ≡ length db.idempotency_keys
  unfolding commit_changes
  commit_changes-length [] db = refl
  commit_changes-length ((m, ch) ∷ cs) db =
      commit_changes-length cs _ ∙ length-update_rows (has_key m) (changed_row ch) _

  commit_round-length :
      (r : Result (List (String × Change))) (db : Database)
      → length (commit_round s codec r db).idempotency_keys ≡ length db.idempotency_keys
  commit_round-length (raised e) db = refl
  commit_round-length (ok cs) db = commit_changes-length cs db

  finish_task-IsCounted :
      (env : EnrichEnv) (picked : Option (Event × List Event)) (v : Service)
      → IsPicked picked (length v.tasks)
      → IsCounted v
      → IsCounted (finish_task s codec env picked v)
  unfolding finish_task
  finish_task-IsCounted env none v one h = h
  finish_task-IsCounted env (some (e, rest)) v one h =
      let a = enrich_event-Accounts s env e v.consumer in
      (omega (arith, a, one, h.0), omega (arith, a, h.1))

  load_round-IsCounted :
      (r : Round) (v : Service) (o : Option (Result (List (String × Change))))
      → IsCounted v
      → IsCounted (load_round s codec r v o)
  unfolding load_round
  load_round-IsCounted r v none h = h
  load_round-IsCounted r v (some changes) h = h

  write_round-IsCounted :
      (v : Service) (o : Option (Result (List (String × Change))))
      → IsCounted v
      → IsCounted (write_round s codec v o)
  unfolding write_round
  write_round-IsCounted v none h = h
  write_round-IsCounted v (some changes) h =
      (h.0, omega (arith, h.1, commit_round-length changes v.consumer.database))

  step-IsCounted : (t : Step) (v : Service) → IsCounted v → IsCounted (step s codec t v)
  unfolding step
  step-IsCounted (arrive env body) v h = elim (receive_cases s codec env body v.consumer) [
    | inl (r, e, idle) ↦ rw e (idle-IsCounted r v idle h)
    | inr (e, ready, stored) ↦ rw stored (store_event-IsCounted env e v ready h)
  ]
  step-IsCounted (resume i env) v h =
      finish_task-IsCounted env (pick i v.tasks) v (pick-IsPicked i v.tasks) h
  step-IsCounted restart v h = (omega arith, omega arith)
  step-IsCounted (begin_round scan publish now) v h =
      load_round-IsCounted
        (reconcile_rows s codec publish (stale_rows s codec scan now v.consumer.database)) v
        v.open_round h
  step-IsCounted end_round v h = write_round-IsCounted v v.open_round h

  -- Under every schedule of the consumer process, restarts included, the handlers that wait for
  -- the provider, the counted failures of enrichment and the observed durations together are at
  -- most the messages counted as received, and these at most the stored events, if both are so at
  -- the start: redelivered messages count no event twice.
  pub run_steps-IsCounted :
      (ts : List Step) (v : Service) → IsCounted v → IsCounted (run_steps s codec ts v)
  unfolding run_steps
  run_steps-IsCounted [] v h = h
  run_steps-IsCounted (t ∷ ts) v h =
      run_steps-IsCounted ts (step s codec t v) (step-IsCounted t v h)
