-- ===== src/System/Permanence.antt =====
-- What stays of events, subscribers and attempts over every interleaving of the processes.
use unith_task.Prelude.{ℕ, ◌≡◌, refl, String, some, inl, inr}
use unith_task.Config.{Settings}
use unith_task.Json.{Codec}
use unith_task.Runtime.{Runtime}
use unith_task.Db.{
  Subscriber, IdempotencyKey, DeliveryAttempt, Database, find_key, find_subscriber, find_attempt,
}
use unith_task.Delivery.Lifecycle.{IsSameAttempt}
use unith_task.Consumer.Handler.Permanence.{IsSameEvent, Stays, Stays-same, Stays-trans}
use unith_task.Consumer.Service.Permanence.{step-Stays}
use unith_task.Consumer.Service.Attempts.{step-subscribers}
use unith_task.Delivery.Claim.{claim_batch, reset_stale_in_flight}
use unith_task.Delivery.Worker.Frame.{dispatch-Effect, Effect-tables}
use unith_task.Api.Deliveries.{retry_delivery}
use unith_task.Api.Subscribers.Permanence.{
  IsSameSubscriber, Remains, Remains-table, Remains-trans, create-Remains, patch-Remains,
  delete-Remains, create-keys, patch-keys, delete-keys,
}
use unith_task.System.{
  System, database_of, Happens, consume, claim, deliver_one, crash, clean_up, retry, subscribe,
  amend, unsubscribe, Reach, start, later,
}
use unith_task.System.Attempts.{Reach-Endures}
use unith_task.System.Tables.{retry_cases}

-- The events and the subscribers of one table stand in the other.
abbrev Lasts : String → ℕ → Database → Database → Type 0
Lasts m i db db' = Stays m db db' × Remains i db db'

module _ (m : String) (i : ℕ) where
  same_tables :
      (db db' : Database)
      → (db'.subscribers ≡ db.subscribers) × (db'.idempotency_keys ≡ db.idempotency_keys)
      → Lasts m i db db'
  unfolding find_key
  same_tables db db' (subs, keys) = (Stays-same m db db' (rw keys), Remains-table i db db' subs)

  same_keys :
      (db db' : Database)
      → db'.idempotency_keys ≡ db.idempotency_keys
      → Remains i db db'
      → Lasts m i db db'
  unfolding find_key
  same_keys db db' keys h = (Stays-same m db db' (rw keys), h)

  Lasts-trans : (a b c : Database) → Lasts m i a b → Lasts m i b c → Lasts m i a c
  Lasts-trans a b c (e, u) (e', u') = (Stays-trans m a b c e e', Remains-trans i a b c u u')

  retry-Lasts :
      (id now updated : ℕ) (db : Database) → Lasts m i db (retry_delivery id now updated db).1
  retry-Lasts id now updated db = elim (retry_cases id now updated db) [
    | inl same ↦ same_tables db _ (rw same, rw same)
    | inr (a, found, hit, e) ↦ same_tables db _ (rw e, rw e)
  ]

module _ (s : Settings) (codec : Codec) (rt : Runtime) (m : String) (i : ℕ) where
  Happens-Lasts :
      (v w : System) → Happens s codec rt v w → Lasts m i (database_of v) (database_of w)
  unfolding claim_batch reset_stale_in_flight
  Happens-Lasts v _ (consume t keys) = (
    step-Stays s codec m t v.service,
    Remains-table i (database_of v) _ (step-subscribers s codec t v.service),
  )
  Happens-Lasts v _ (claim scan now ok_scan) = same_tables m i (database_of v) _ (refl, refl)
  Happens-Lasts v _ (deliver_one env metrics sub before c after e) =
      same_tables m i (database_of v) _ (
        Effect-tables c.attempt.id i (database_of v) _ _
          (dispatch-Effect s rt env c sub (record { database = database_of v; metrics = metrics })))
  Happens-Lasts v _ (crash before c after e) = same_tables m i (database_of v) _ (refl, refl)
  Happens-Lasts v _ (clean_up now recent) = same_tables m i (database_of v) _ (refl, refl)
  Happens-Lasts v _ (retry id now updated) = retry-Lasts m i id now updated (database_of v)
  Happens-Lasts v _ (subscribe id secret now body) =
      same_keys m i (database_of v) _ (create-keys id secret now body (database_of v))
        (create-Remains i id secret now body (database_of v))
  Happens-Lasts v _ (amend id body now) =
      same_keys m i (database_of v) _ (patch-keys id body now (database_of v))
        (patch-Remains i id body now (database_of v))
  Happens-Lasts v _ (unsubscribe id now) =
      same_keys m i (database_of v) _ (delete-keys id now (database_of v))
        (delete-Remains i id now (database_of v))

  Reach-Lasts : (v w : System) → Reach s codec rt v w → Lasts m i (database_of v) (database_of w)
  Reach-Lasts v _ start = same_tables m i (database_of v) (database_of v) (refl, refl)
  Reach-Lasts v _ (later {w} {x} r h) =
      Lasts-trans m i (database_of v) (database_of w) (database_of x) (Reach-Lasts v w r)
        (Happens-Lasts w x h)

  -- Over every interleaving of all processes in which a retry's SELECT and commit are one step, the
  -- clean-up finds no held claim stale and drawn ids are new: a stored event stays stored, with its id, type, raw
  -- payload and time of arrival, and is `dispatched` only if it was; a subscriber stays stored, with
  -- its id, name, secret and time of creation, and stays deleted if it was; an attempt stays stored,
  -- with its id, its event, its subscriber and its time of creation.
  pub Reach-keeps :
      (j : ℕ) (v w : System) (k : IdempotencyKey) (x : Subscriber) (a : DeliveryAttempt)
      → Reach s codec rt v w
      → find_key m (database_of v) ≡ some k
      → find_subscriber i (database_of v) ≡ some x
      → find_attempt j (database_of v) ≡ some a
      → ((k' : IdempotencyKey) × (find_key m (database_of w) ≡ some k') × IsSameEvent k k')
        × ((y : Subscriber) × (find_subscriber i (database_of w) ≡ some y) × IsSameSubscriber x y)
        × ((b : DeliveryAttempt) × (find_attempt j (database_of w) ≡ some b) × IsSameAttempt a b)
  Reach-keeps j v w k x a r stored present there =
      let (events, subscribers) = Reach-Lasts v w r in
      (events k stored, subscribers x present, Reach-Endures s codec rt j v w r a there)
