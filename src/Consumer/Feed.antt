-- ===== src/Consumer/Feed.antt =====
-- The queue that `run` of app/consumer/rabbitmq.py consumes, with the process that consumes it.
-- The queue is the list of the bodies that are not yet settled. A handler settles its message once:
-- with the ACK, or by the exception that leaves it, behind which `message.process` rejects the
-- message and does not put it back (requeue=False).
pub mod Picks
pub mod Lossless
use unith_task.Prelude.{ℕ, Bytes, Option, none, some, List, [], ◌∷◌, ◌++◌, String}
use unith_task.Prelude.Result.{Result}
use unith_task.Config.{Settings}
use unith_task.Json.{Codec}
use unith_task.Db.{IdempotencyKey}
use unith_task.Consumer.Intake.{IntakeEnv}
use unith_task.Consumer.Handler.{EnrichEnv}
use unith_task.Consumer.Reconciler.{Publish, Change, Round, stale_rows, reconcile_rows}
use unith_task.Consumer.Service.{
  Service, Step, arrive, resume, restart, begin_round, end_round, pick, step,
}

pub record Feed : Type 0 where
  pub queue : List Bytes
  pub service : Service

-- A publisher adds a message; the message at a position is taken and settled; it is taken, and the
-- process dies between the commit and the ACK, so that the broker keeps it; the process goes on by a
-- step without a message.
pub data Turn : Type 0 where
  publish_body : Bytes → Turn
  take_message : ℕ → IntakeEnv → Turn
  die_unacked : ℕ → IntakeEnv → Turn
  come_back : ℕ → EnrichEnv → Turn
  die : Turn
  start_round :
      (ℕ → List IdempotencyKey → List IdempotencyKey) → (IdempotencyKey → Publish) → ℕ → Turn
  commit_all : Turn

-- There is one reconciler: with a round open, it starts no other.
abbrev sent_by : Round → Option (Result (List (String × Change))) → List Bytes
sent_by r none = r.sent
sent_by r (some changes) = []

module _ (s : Settings) (codec : Codec) where
  pub handle_taken : IntakeEnv → Option (Bytes × List Bytes) → Feed → Feed
  handle_taken env none f = f
  handle_taken env (some (body, rest)) f = record {
    queue = rest;
    service = step s codec (arrive env body) f.service;
  }

  pub lose_ack : IntakeEnv → Option (Bytes × List Bytes) → Feed → Feed
  lose_ack env none f = f
  lose_ack env (some (body, rest)) f = record f {
    service = step s codec restart (step s codec (arrive env body) f.service);
  }

  unfoldable pub turn : Turn → Feed → Feed
  unfolding handle_taken lose_ack
  turn (publish_body body) f = record f { queue = f.queue ++ body ∷ [] }
  turn (take_message i env) f = handle_taken env (pick i f.queue) f
  turn (die_unacked i env) f = lose_ack env (pick i f.queue) f
  turn (come_back i env) f = record f { service = step s codec (resume i env) f.service }
  turn die f = record f { service = step s codec restart f.service }
  turn (start_round scan publish now) f =
      let rows = stale_rows s codec scan now f.service.consumer.database in
      record {
        queue = f.queue ++ sent_by (reconcile_rows s codec publish rows) f.service.open_round;
        service = step s codec (begin_round scan publish now) f.service;
      }
  turn commit_all f = record f { service = step s codec end_round f.service }

  unfoldable pub run_turns : List Turn → Feed → Feed
  run_turns [] f = f
  run_turns (t ∷ ts) f = run_turns ts (turn t f)
