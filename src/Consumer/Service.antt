-- ===== src/Consumer/Service.antt =====
-- The consumer process of app/consumer/rabbitmq.py: up to ten handlers at once and the reconciler,
-- in one event loop. A handler gives way to the others behind its ACK, while it waits for the
-- provider, and the reconciler while it publishes, between its SELECT and its commit. A schedule is
-- the list of the steps between such points.
pub mod Stuck
pub mod Unique
pub mod Attempts
pub mod Permanence
pub mod Overwrite
pub mod Counters
use unith_task.Prelude.{ℕ, zero, suc, Bytes, Option, none, some, List, [], ◌∷◌}
use unith_task.Config.{Settings}
use unith_task.Json.{Codec}
use unith_task.Db.{IdempotencyKey}
use unith_task.Consumer.Intake.{
  ConsumerMetrics, Consumer, IntakeEnv, Event, Intake, too_large, invalid_json, duplicate, accepted,
  refused, receive,
}
use unith_task.Consumer.Handler.{EnrichEnv, enrich_event}
use unith_task.Prelude.{String}
use unith_task.Prelude.Result.{Result}
use unith_task.Consumer.Reconciler.{
  Publish, Change, Round, stale_rows, reconcile_rows, commit_round,
}

-- The tables and process state, the events whose handlers wait for the provider, and the changes
-- that an open round of the reconciler has made to its loaded rows, or the exception that ended it.
pub record Service : Type 0 where
  pub consumer : Consumer
  pub tasks : List Event
  pub open_round : Option (Result (List (String × Change)))

-- A message arrives; the handler at a position comes back from the provider; the process dies and
-- starts again, with no handler, round or provider and with its counters at 0; the reconciler loads
-- and publishes its rows; it commits.
pub data Step : Type 0 where
  arrive : IntakeEnv → Bytes → Step
  resume : ℕ → EnrichEnv → Step
  restart : Step
  begin_round :
      (ℕ → List IdempotencyKey → List IdempotencyKey) → (IdempotencyKey → Publish) → ℕ → Step
  end_round : Step

abbrev pub zero_counts : ConsumerMetrics
zero_counts = record {
  received_total = 0;
  duplicate_total = 0;
  transient_errors = 0;
  fatal_errors = 0;
  durations = [];
}

module _ {ℓ} {A : Type ℓ} where
  abbrev pub put_back : A → Option (A × List A) → Option (A × List A)
  put_back e none = none
  put_back e (some (t, rest)) = some (t, e ∷ rest)

  -- The element at a position, and the others.
  unfoldable pub pick : ℕ → List A → Option (A × List A)
  pick i [] = none
  pick zero (e ∷ es) = some (e, es)
  pick (suc i) (e ∷ es) = put_back e (pick i es)

pub start_task : Intake × Consumer → Service → Service
start_task (accepted e, c) v = record v { consumer = c; tasks = e ∷ v.tasks }
start_task (too_large, c) v = record v { consumer = c }
start_task (invalid_json, c) v = record v { consumer = c }
start_task (duplicate, c) v = record v { consumer = c }
start_task (refused, c) v = record v { consumer = c }

module _ (s : Settings) (codec : Codec) where
  pub finish_task : EnrichEnv → Option (Event × List Event) → Service → Service
  finish_task env none v = v
  finish_task env (some (e, rest)) v = record v {
    consumer = (enrich_event s env e v.consumer).1;
    tasks = rest;
  }

  -- There is one reconciler: it begins a round only behind the end of the last one.
  pub load_round : Round → Service → Option (Result (List (String × Change))) → Service
  load_round r v none = record v { open_round = some r.changes }
  load_round r v (some changes) = v

  pub write_round : Service → Option (Result (List (String × Change))) → Service
  write_round v none = v
  write_round v (some changes) = record v {
    consumer = record v.consumer { database = commit_round s codec changes v.consumer.database };
    open_round = none;
  }

  unfoldable pub step : Step → Service → Service
  unfolding start_task finish_task load_round write_round
  step (arrive env body) v = start_task (receive s codec env body v.consumer) v
  step (resume i env) v = finish_task env (pick i v.tasks) v
  step restart v = record {
    consumer = record v.consumer { provider = none; metrics = zero_counts };
    tasks = [];
    open_round = none;
  }
  step (begin_round scan publish now) v =
      load_round (reconcile_rows s codec publish (stale_rows s codec scan now v.consumer.database))
        v v.open_round
  step end_round v = write_round v v.open_round

  unfoldable pub run_steps : List Step → Service → Service
  run_steps [] v = v
  run_steps (t ∷ ts) v = run_steps ts (step t v)
