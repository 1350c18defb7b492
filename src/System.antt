-- ===== src/System.antt =====
-- The processes over one database: the consumer with its reconciler (app/consumer/rabbitmq.py), any
-- number of delivery workers (app/delivery/worker.py), and the requests to app/api. A step is one
-- transaction of one of them, so that their steps interleave in any order.
pub mod Tables
pub mod Claiming
pub mod Exclusion
pub mod Lifecycle
pub mod Refinement
pub mod Lookup
pub mod Delivering
pub mod Liveness
pub mod Pipeline
pub mod Requests
pub mod Attempts
pub mod Permanence
pub mod Races
pub mod Unenriched
use unith_task.Prelude.{ℕ, ◌≡◌, String, Bool, false, Option, some, List, [], ◌∷◌, ◌++◌, All, ◌-◌}
use unith_task.Prelude.Result.{Result}
use unith_task.Config.{Settings, minutes}
use unith_task.Json.{Codec}
use unith_task.Runtime.{Runtime}
use unith_task.Db.{Subscriber, Database, DeliveryAttempt, find_attempt}
use unith_task.Db.Keys.{HasKeys, IsSelection}
use unith_task.Schemas.{SubscriberCreate, SubscriberUpdate}
use unith_task.Consumer.Service.{Service, Step, step}
use unith_task.Delivery.Claim.{
  DeliveryMetrics, Worker, Env, Claimed, is_stale, reset_stale_in_flight, claim_batch,
}
use unith_task.Delivery.Worker.{dispatch}
use unith_task.Api.Deliveries.{retry_delivery}
use unith_task.Api.Subscribers.{create_subscriber, patch_row, delete_subscriber}

-- The consumer process, which carries the tables, and the claims that workers have committed and
-- not yet worked off.
pub record System : Type 0 where
  pub service : Service
  pub held : List Claimed

abbrev pub database_of : System → Database
database_of v = v.service.consumer.database

abbrev pub with_tables : Database → List Claimed → System → System
with_tables db held v = record {
  service = record v.service { consumer = record v.service.consumer { database = db } };
  held = held;
}

abbrev pub add_claims : List Claimed × Database → System → System
add_claims (cs, db) v = with_tables db (cs ++ v.held) v

-- The row of a claim is not older than the clean-up's cutoff.
abbrev pub IsRecent : ℕ → Database → Claimed → Type 0
IsRecent cutoff db c =
    (a : DeliveryAttempt) → find_attempt c.attempt.id db ≡ some a → is_stale cutoff a ≡ false

module _ (s : Settings) (codec : Codec) (rt : Runtime) where
  abbrev pub tables_after :
      Env → DeliveryMetrics → Option Subscriber → Claimed → Database → Database
  tables_after env metrics sub c db =
      (dispatch s rt env c sub (record { database = db; metrics = metrics })).1.database

  -- `consume`: the ids that an intake draws are new. `deliver_one`: the subscriber was read before, by
  -- a query that other steps may have overtaken. `crash`: a process ends, or an exception leaves the
  -- loop of a batch. `clean_up`: a claim is worked off before the clean-up takes it for lost.
  -- `retry`: nothing comes between the SELECT of the request and its commit (System/Races).
  pub data Happens (v : System) : System → Type 0 where
    consume :
        (t : Step)
        → HasKeys (step s codec t v.service).consumer.database
        → Happens v (record v { service = step s codec t v.service })
    claim :
        (scan : ℕ → List DeliveryAttempt → List DeliveryAttempt) (now : ℕ)
        → IsSelection scan
        → Happens v (add_claims (claim_batch scan now (database_of v)) v)
    deliver_one :
        (env : Env) (metrics : DeliveryMetrics) (sub : Option Subscriber) (before : List Claimed)
        (c : Claimed) (after : List Claimed)
        → v.held ≡ before ++ c ∷ after
        → Happens v
            (with_tables (tables_after env metrics sub c (database_of v)) (before ++ after) v)
    crash :
        (before : List Claimed) (c : Claimed) (after : List Claimed)
        → v.held ≡ before ++ c ∷ after
        → Happens v (with_tables (database_of v) (before ++ after) v)
    clean_up :
        (now : ℕ)
        → All (IsRecent (now - minutes s.delivery_stale_in_flight_minutes) (database_of v)) v.held
        → Happens v (with_tables (reset_stale_in_flight s now (database_of v)) v.held v)
    retry :
        (id now updated : ℕ)
        → Happens v (with_tables (retry_delivery id now updated (database_of v)).1 v.held v)
    subscribe :
        (id : ℕ) (secret : String) (now : ℕ) (body : SubscriberCreate)
        → Happens v (with_tables (create_subscriber id secret now body (database_of v)).1 v.held v)
    amend :
        (id : ℕ) (body : SubscriberUpdate) (now : ℕ)
        → Happens v (with_tables (patch_row id body now (database_of v)).1 v.held v)
    unsubscribe :
        (id now : ℕ) → Happens v (with_tables (delete_subscriber id now (database_of v)).1 v.held v)

  pub data Reach (v : System) : System → Type 0 where
    start : Reach v v
    later : {w x : System} → Reach v w → Happens w x → Reach v x
