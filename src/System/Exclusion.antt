-- ===== src/System/Exclusion.antt =====
-- The claims of all workers over every interleaving of the processes.
use unith_task.Prelude.{◌-◌, ◌≡◌, false, Option, List, [], ◌∷◌, ◌++◌, arith, All-map, All-and, ◌==◌}
use unith_task.Prelude.Apart.{All-without, Apart-without}
use unith_task.Config.{Settings, minutes}
use unith_task.Json.{Codec}
use unith_task.Runtime.{Runtime}
use unith_task.Db.{Subscriber, Database}
use unith_task.Db.Keys.{HasKeys}
use unith_task.Delivery.Claim.{Worker, Env, Claimed}
use unith_task.Delivery.Worker.{dispatch}
use unith_task.Delivery.Worker.Frame.{dispatch-Effect, Effect-other}
use unith_task.Delivery.Worker.Batch.Claims.{claimed_id}
use unith_task.Consumer.Service.{step}
use unith_task.Consumer.Service.Attempts.{step-Appends}
use unith_task.System.{
  System, database_of, IsRecent, Happens, consume, claim, deliver_one, crash, clean_up, retry,
  subscribe, amend, unsubscribe, Reach, start, later,
}
use unith_task.System.Claiming.{IsExclusive, claim-IsExclusive}
use unith_task.System.Tables.{
  IsHeld, IsHeld-same, find_attempt-Appends, find_attempt-table, HasKeys-table, Effect-HasKeys,
  reset-HasKeys, reset-IsHeld, retry-HasKeys, retry-IsHeld, create_subscriber-attempts,
  patch_row-attempts, delete_subscriber-attempts,
}

module _ (s : Settings) (codec : Codec) (rt : Runtime) where
  dispatch-IsExclusive :
      (env : Env) (c : Claimed) (sub : Option Subscriber) (w : Worker) (before after : List Claimed)
      → IsExclusive w.database (before ++ c ∷ after)
      → IsExclusive (dispatch s rt env c sub w).1.database (before ++ after)
  dispatch-IsExclusive env c sub w before after v =
      let effect = dispatch-Effect s rt env c sub w in
      let db' = (dispatch s rt env c sub w).1.database in
      let (this, others) = All-without (IsHeld w.database) before c after v.rows in
      let (once, away) = Apart-without claimed_id before c after v.once in
      record {
        keys = Effect-HasKeys c.attempt.id w.database db' _ effect v.keys;
        rows =
            All-map (λ d. IsHeld w.database d × ((c.attempt.id == d.attempt.id) ≡ false))
              (IsHeld db') (before ++ after)
              (λ d (h, ne).
                IsHeld-same w.database db' d
                  (Effect-other c.attempt.id d.attempt.id w.database db' _ effect (ground arith)) h)
              (All-and (IsHeld w.database) _ (before ++ after) others away);
        once = once;
      }

  -- The tables of attempts agree.
  table-IsExclusive :
      (db db' : Database) (held : List Claimed)
      → db'.delivery_attempts ≡ db.delivery_attempts
      → IsExclusive db held
      → IsExclusive db' held
  table-IsExclusive db db' held e v = record {
    keys = HasKeys-table db db' e v.keys;
    rows =
        All-map (IsHeld db) (IsHeld db') held
          (λ c h. IsHeld-same db db' c (find_attempt-table c.attempt.id db db' e) h) v.rows;
    once = v.once;
  }

  pub Happens-IsExclusive :
      {v w : System}
      → Happens s codec rt v w
      → IsExclusive (database_of v) v.held
      → IsExclusive (database_of w) w.held
  Happens-IsExclusive {v} (consume t keys) h =
      let db' = (step s codec t v.service).consumer.database in
      record {
        keys = keys;
        rows =
            All-map (IsHeld (database_of v)) (IsHeld db') v.held
              (λ c (a, found, st). (
                a,
                find_attempt-Appends c.attempt.id (database_of v) db'
                    (step-Appends s codec t v.service) found,
                st,
              ))
              h.rows;
        once = h.once;
      }
  Happens-IsExclusive {v} (claim scan now ok_scan) h =
      claim-IsExclusive scan ok_scan now (database_of v) h.keys v.held h
  Happens-IsExclusive {v} (deliver_one env metrics sub before c after e) h =
      dispatch-IsExclusive env c sub (record { database = database_of v; metrics = metrics }) before
        after (rw e at h)
  Happens-IsExclusive {v} (crash before c after e) h =
      let h' : IsExclusive (database_of v) (before ++ c ∷ after) = rw e at h in
      record {
        keys = h'.keys;
        rows = (All-without (IsHeld (database_of v)) before c after h'.rows).1;
        once = (Apart-without claimed_id before c after h'.once).0;
      }
  Happens-IsExclusive {v} (clean_up now recent) h = record {
    keys = reset-HasKeys s now (database_of v) h.keys;
    rows =
        All-map
          (λ c.
            IsRecent (now - minutes s.delivery_stale_in_flight_minutes) (database_of v) c
            × IsHeld (database_of v) c)
          _ v.held (λ c (young, row). reset-IsHeld s now (database_of v) c young row)
          (All-and (IsRecent (now - minutes s.delivery_stale_in_flight_minutes) (database_of v)) _
            v.held recent h.rows);
    once = h.once;
  }
  Happens-IsExclusive {v} (retry id now updated) h = record {
    keys = retry-HasKeys id now updated (database_of v) h.keys;
    rows =
        All-map (IsHeld (database_of v)) _ v.held (retry-IsHeld id now updated (database_of v))
          h.rows;
    once = h.once;
  }
  Happens-IsExclusive {v} (subscribe id secret now body) h =
      table-IsExclusive (database_of v) _ v.held
        (create_subscriber-attempts id secret now body (database_of v)) h
  Happens-IsExclusive {v} (amend id body now) h =
      table-IsExclusive (database_of v) _ v.held (patch_row-attempts id body now (database_of v)) h
  Happens-IsExclusive {v} (unsubscribe id now) h =
      table-IsExclusive (database_of v) _ v.held (delete_subscriber-attempts id now (database_of v))
        h

  -- Over every interleaving of the consumer, of any number of workers and of requests to the API,
  -- where the clean-up takes no held claim for stale, a retry request is not overtaken by a claim
  -- between its SELECT and its commit, and drawn ids are new: from tables with primary keys and no
  -- claim, ids stay primary keys, each claim that a worker holds is of a row in flight
  -- with the count that the claim read, and no two held claims are of the same attempt.
  pub Reach-IsExclusive :
      {v w : System}
      → Reach s codec rt v w
      → HasKeys (database_of v)
      → v.held ≡ []
      → IsExclusive (database_of w) w.held
  Reach-IsExclusive start keys idle = rw idle (record { keys = keys; rows = tt; once = tt })
  Reach-IsExclusive (later r h) keys idle = Happens-IsExclusive h (Reach-IsExclusive r keys idle)
