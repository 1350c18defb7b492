-- ===== src/Consumer/Service/Permanence.antt =====
-- What no step of the consumer process changes of a stored event.
use unith_task.Prelude.{◌≡◌, refl, ap, String, Option, none, some, List, [], ◌∷◌}
use unith_task.Prelude.Result.{Result, ok, raised}
use unith_task.Config.{Settings}
use unith_task.Json.{Codec}
use unith_task.Db.{IdempotencyKey, Database, has_key, find_key}
use unith_task.Consumer.Intake.{Event, receive}
use unith_task.Consumer.Handler.{EnrichEnv, update_keys}
use unith_task.Consumer.Reconciler.{
  Change, changed_row, commit_changes, commit_round, stale_rows, reconcile_rows,
}
use unith_task.Consumer.Handler.Permanence.{
  IsSameEvent, Stays, Stays-same, Stays-trans, Stays-update, changed_row-IsSameEvent,
  enrich_event-Stays, receive-Stays,
}
use unith_task.Consumer.Service.{
  Service, Step, arrive, resume, restart, begin_round, end_round, pick, load_round, write_round,
  finish_task, step, run_steps,
}
use unith_task.Consumer.Service.Attempts.{load_round-attempts}
use unith_task.Consumer.Service.Unique.{start_task-database}

module _ (s : Settings) (codec : Codec) (m : String) where
  commit_changes-Stays :
      (cs : List (String × Change)) (db : Database) → Stays m db (commit_changes s codec cs db)
  unfolding commit_changes
  commit_changes-Stays [] db = Stays-same m db db refl
  commit_changes-Stays ((j, ch) ∷ cs) db =
      let one = update_keys (has_key j) (changed_row ch) db in
      Stays-trans m db one (commit_changes s codec cs one)
        (Stays-update m (has_key j) (changed_row ch) db (changed_row-IsSameEvent ch))
        (commit_changes-Stays cs one)

  commit_round-Stays :
      (r : Result (List (String × Change))) (db : Database) → Stays m db (commit_round s codec r db)
  commit_round-Stays (raised e) db = Stays-same m db db refl
  commit_round-Stays (ok cs) db = commit_changes-Stays cs db

  finish_task-Stays :
      (env : EnrichEnv) (picked : Option (Event × List Event)) (v : Service)
      → Stays m v.consumer.database (finish_task s codec env picked v).consumer.database
  unfolding finish_task
  finish_task-Stays env none v = Stays-same m v.consumer.database v.consumer.database refl
  finish_task-Stays env (some (e, rest)) v = enrich_event-Stays m s env e v.consumer

  write_round-Stays :
      (v : Service) (o : Option (Result (List (String × Change))))
      → Stays m v.consumer.database (write_round s codec v o).consumer.database
  unfolding write_round
  write_round-Stays v none = Stays-same m v.consumer.database v.consumer.database refl
  write_round-Stays v (some changes) = commit_round-Stays changes v.consumer.database

  pub step-Stays :
      (t : Step) (v : Service) → Stays m v.consumer.database (step s codec t v).consumer.database
  unfolding step
  step-Stays (arrive env body) v =
      rw (start_task-database (receive s codec env body v.consumer) v)
        (receive-Stays m s codec env body v.consumer)
  step-Stays (resume i env) v = finish_task-Stays env (pick i v.tasks) v
  step-Stays restart v = Stays-same m v.consumer.database v.consumer.database refl
  step-Stays (begin_round scan publish now) v =
      let r = reconcile_rows s codec publish (stale_rows s codec scan now v.consumer.database) in
      Stays-same m v.consumer.database (load_round s codec r v v.open_round).consumer.database
        (ap (find_key m) (load_round-attempts s codec r v v.open_round))
  step-Stays end_round v = write_round-Stays v v.open_round

  run_steps-Stays :
      (ts : List Step) (v : Service)
      → Stays m v.consumer.database (run_steps s codec ts v).consumer.database
  unfolding run_steps
  run_steps-Stays [] v = Stays-same m v.consumer.database v.consumer.database refl
  run_steps-Stays (t ∷ ts) v =
      Stays-trans m v.consumer.database (step s codec t v).consumer.database
        (run_steps s codec (t ∷ ts) v).consumer.database (step-Stays t v)
        (run_steps-Stays ts (step s codec t v))

  -- Under every schedule of arrivals, redeliveries, answers of the provider, restarts and rounds,
  -- overlapping as they may, a stored event stays stored: its row keeps its id, type, raw payload
  -- and time of arrival, and is `dispatched` only if it was before.
  pub run_steps-IsSameEvent :
      (ts : List Step) (v : Service) (k : IdempotencyKey)
      → find_key m v.consumer.database ≡ some k
      → (k' : IdempotencyKey) × (find_key m (run_steps s codec ts v).consumer.database ≡ some k')
        × IsSameEvent k k'
  run_steps-IsSameEvent ts v k found = run_steps-Stays ts v k found
