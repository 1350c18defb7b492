-- ===== src/Consumer/Service/Unique.antt =====
-- The constraints of the tables over every schedule of the consumer process.
use unith_task.Prelude.{◌≡◌, refl, String, Bytes, List, [], ◌∷◌, Option, none, some, inl, inr}
use unith_task.Prelude.Result.{Result, ok, raised}
use unith_task.Config.{Settings}
use unith_task.Json.{Codec}
use unith_task.Db.{Database, has_key}
use unith_task.Consumer.Intake.{
  Consumer, IntakeEnv, Event, Intake, accepted, too_large, invalid_json, duplicate, refused,
  receive,
}
use unith_task.Consumer.Intake.Stored.{receive_cases}
use unith_task.Consumer.Intake.Uniqueness.{IsConsistent, store_event-IsConsistent}
use unith_task.Consumer.Handler.{EnrichEnv}
use unith_task.Consumer.Handler.Constraints.{update_keys-IsConsistent, enrich_event-IsConsistent}
use unith_task.Consumer.Reconciler.{
  Change, abandon, bump, changed_row, commit_changes, commit_round, stale_rows, reconcile_rows,
  Round,
}
use unith_task.Consumer.Service.{
  Service, Step, arrive, resume, restart, begin_round, end_round, pick, start_task, load_round,
  write_round, finish_task, step, run_steps,
}

pub start_task-database :
    (r : Intake × Consumer) (v : Service) → (start_task r v).consumer.database ≡ r.1.database
unfolding start_task
start_task-database (accepted e, c) v = refl
start_task-database (too_large, c) v = refl
start_task-database (invalid_json, c) v = refl
start_task-database (duplicate, c) v = refl
start_task-database (refused, c) v = refl

module _ (s : Settings) (codec : Codec) where
  receive-IsConsistent :
      (env : IntakeEnv) (body : Bytes) (c : Consumer)
      → IsConsistent c.database
      → IsConsistent (receive s codec env body c).1.database
  receive-IsConsistent env body c v = elim (receive_cases s codec env body c) [
    | inl (r, e, idle) ↦ rw e v
    | inr (e, ready, stored) ↦ rw stored (store_event-IsConsistent env e c ready v)
  ]

  commit_changes-IsConsistent :
      (cs : List (String × Change)) (db : Database)
      → IsConsistent db
      → IsConsistent (commit_changes s codec cs db)
  unfolding commit_changes
  commit_changes-IsConsistent [] db v = v
  commit_changes-IsConsistent ((m, abandon n) ∷ cs) db v =
      commit_changes-IsConsistent cs _
        (update_keys-IsConsistent (has_key m) (changed_row (abandon n)) db (λ x. refl) v)
  commit_changes-IsConsistent ((m, bump n) ∷ cs) db v =
      commit_changes-IsConsistent cs _
        (update_keys-IsConsistent (has_key m) (changed_row (bump n)) db (λ x. refl) v)

  commit_round-IsConsistent :
      (r : Result (List (String × Change))) (db : Database)
      → IsConsistent db
      → IsConsistent (commit_round s codec r db)
  commit_round-IsConsistent (raised e) db v = v
  commit_round-IsConsistent (ok cs) db v = commit_changes-IsConsistent cs db v

  finish_task-IsConsistent :
      (env : EnrichEnv) (picked : Option (Event × List Event)) (v : Service)
      → IsConsistent v.consumer.database
      → IsConsistent (finish_task s codec env picked v).consumer.database
  unfolding finish_task
  finish_task-IsConsistent env none v h = h
  finish_task-IsConsistent env (some (e, rest)) v h = enrich_event-IsConsistent s env e v.consumer h

  load_round-IsConsistent :
      (r : Round) (v : Service) (o : Option (Result (List (String × Change))))
      → IsConsistent v.consumer.database
      → IsConsistent (load_round s codec r v o).consumer.database
  unfolding load_round
  load_round-IsConsistent r v none h = h
  load_round-IsConsistent r v (some changes) h = h

  write_round-IsConsistent :
      (v : Service) (o : Option (Result (List (String × Change))))
      → IsConsistent v.consumer.database
      → IsConsistent (write_round s codec v o).consumer.database
  unfolding write_round
  write_round-IsConsistent v none h = h
  write_round-IsConsistent v (some changes) h =
      commit_round-IsConsistent changes v.consumer.database h

  step-IsConsistent :
      (t : Step) (v : Service)
      → IsConsistent v.consumer.database
      → IsConsistent (step s codec t v).consumer.database
  unfolding step
  step-IsConsistent (arrive env body) v h =
      rw (start_task-database (receive s codec env body v.consumer) v)
        (receive-IsConsistent env body v.consumer h)
  step-IsConsistent (resume i env) v h = finish_task-IsConsistent env (pick i v.tasks) v h
  step-IsConsistent restart v h = h
  step-IsConsistent (begin_round scan publish now) v h =
      load_round-IsConsistent
        (reconcile_rows s codec publish (stale_rows s codec scan now v.consumer.database)) v
        v.open_round h
  step-IsConsistent end_round v h = write_round-IsConsistent v v.open_round h

  -- Under every schedule of arrivals, answers of the provider, restarts and rounds, whatever is
  -- redelivered and whatever fails, tables that meet their constraints keep them: ids of
  -- subscribers and events are unique, and each pair of a message and a subscriber has at most one
  -- attempt, and none if the event is not stored.
  pub run_steps-IsConsistent :
      (ts : List Step) (v : Service)
      → IsConsistent v.consumer.database
      → IsConsistent (run_steps s codec ts v).consumer.database
  unfolding run_steps
  run_steps-IsConsistent [] v h = h
  run_steps-IsConsistent (t ∷ ts) v h =
      run_steps-IsConsistent ts (step s codec t v) (step-IsConsistent t v h)
