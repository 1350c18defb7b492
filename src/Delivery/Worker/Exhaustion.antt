-- ===== src/Delivery/Worker/Exhaustion.antt =====
-- An endpoint that never accepts: the attempt is retried up to the limit and then dead.
use unith_task.Prelude.{ℕ, zero, suc, ◌≡◌, true, false, Option, none, some, leb, if◌then◌else◌}
use unith_task.Prelude.Result.{ok}
use unith_task.Config.{Settings}
use unith_task.Runtime.{Runtime}
use unith_task.Db.{
  Subscriber, IdempotencyKey, DeliveryStatus, dead, DeliveryAttempt, Database, is_live,
  find_attempt, find_key, find_subscriber,
}
use unith_task.Delivery.Sender.{Request, DeliveryResult, classify}
use unith_task.Delivery.Claim.{Worker, Env, load}
use unith_task.Delivery.Worker.{deliver_attempt}

-- Every answer of the client is a result, and no success.
abbrev pub NeverAccepts : Env → Type 0
NeverAccepts env =
    (q : Request) → (r : DeliveryResult) × (classify (env.http q) ≡ ok r) × (r.success ≡ false)

-- The row of an attempt whose failures have been counted: dead at the limit, failed below it.
abbrev pub IsFailed : Settings → ℕ → DeliveryAttempt → Type 0
IsFailed s n a =
    (a.attempt_count ≡ n)
    × (a.status ≡ (if leb s.delivery_max_attempts n then dead else DeliveryStatus.failed))

module _ (s : Settings) (rt : Runtime) (i : ℕ) where
  -- `n` deliveries of one attempt, each with the row as the table then has it.
  deliver_loaded : Env → Option DeliveryAttempt → Worker → Worker
  deliver_loaded env none w = w
  deliver_loaded env (some a) w = (deliver_attempt s rt env (load w.database a) w).1

  pub tries : (ℕ → Env) → ℕ → Worker → Worker
  unfolding deliver_loaded
  tries envs zero w = w
  tries envs (suc n) w =
      let w' = tries envs n w in deliver_loaded (envs n) (find_attempt i w'.database) w'

  -- The rows that a delivery of attempt `i` reads.
  pub record Ready (db : Database) (a : DeliveryAttempt) : Type 0 where
    pub sub : Subscriber
    pub ik : IdempotencyKey
    pub attempt_there : find_attempt i db ≡ some a
    pub sub_there : find_subscriber a.subscriber_id db ≡ some sub
    pub sub_live : is_live sub ≡ true
    pub key_there : find_key a.message_id db ≡ some ik
