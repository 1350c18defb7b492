-- ===== src/Delivery/Lifecycle.antt =====
-- The life of one delivery attempt, as app/db/models.py and the transactions of the consumer, the
-- worker and the API tell it: what a row shows of it is its status and how often it was tried.
use mathlib.Core.Option
use unith_task.Prelude.{ℕ, suc, ◌≡◌, ◌≤◌, ◌<◌, Option, none, some}
use unith_task.Db.{
  DeliveryStatus, pending, in_flight, delivered, dead, DeliveryAttempt, Database, find_attempt,
}

abbrev pub Stage : Type 0
Stage = DeliveryStatus × ℕ

abbrev pub stage_of : DeliveryAttempt → Stage
stage_of a = (a.status, a.attempt_count)

-- The stage of an id; `none` before its row is there.
abbrev pub stage : ℕ → Database → Option Stage
stage i db = Option.map stage_of (find_attempt i db)

-- The later row of an attempt is of the same event and the same subscriber.
pub record IsSameAttempt (a b : DeliveryAttempt) : Type 0 where
  pub same_id : b.id ≡ a.id
  pub same_message : b.message_id ≡ a.message_id
  pub same_subscriber : b.subscriber_id ≡ a.subscriber_id
  pub same_creation : b.created_at ≡ a.created_at

pub same_attempt :
    (a b : DeliveryAttempt)
    → b.id ≡ a.id
    → b.message_id ≡ a.message_id
    → b.subscriber_id ≡ a.subscriber_id
    → b.created_at ≡ a.created_at
    → IsSameAttempt a b
same_attempt a b id message subscriber creation = record {
  same_id = id;
  same_message = message;
  same_subscriber = subscriber;
  same_creation = creation;
}

-- One transaction's effect on an attempt, where `limit` is DELIVERY_MAX_ATTEMPTS.
pub data Moves (limit : ℕ) : Stage → Stage → Type 0 where
  claimed : (n : ℕ) → Moves limit (pending, n) (in_flight, n)
  reclaimed : (n : ℕ) → Moves limit (DeliveryStatus.failed, n) (in_flight, n)
  succeeded : (n : ℕ) → Moves limit (in_flight, n) (delivered, suc n)
  rejected : (n : ℕ) → suc n < limit → Moves limit (in_flight, n) (DeliveryStatus.failed, suc n)
  exhausted : (n : ℕ) → limit ≤ suc n → Moves limit (in_flight, n) (dead, suc n)
  orphaned : (n : ℕ) → Moves limit (in_flight, n) (dead, n)
  recovered : (n : ℕ) → Moves limit (in_flight, n) (DeliveryStatus.failed, n)
  revived : (n : ℕ) → Moves limit (dead, n) (pending, n)
  retried : (n : ℕ) → Moves limit (DeliveryStatus.failed, n) (pending, n)

-- The same of an id that has a row or none: its row appears, or takes a move.
pub data Progress (limit : ℕ) : Option Stage → Option Stage → Type 0 where
  created : Progress limit none (some (pending, 0))
  moved : {p q : Stage} → Moves limit p q → Progress limit (some p) (some q)
