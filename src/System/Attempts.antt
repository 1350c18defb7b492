-- ===== src/System/Attempts.antt =====
-- What no transaction changes of an attempt.
use unith_task.Prelude.{ℕ, ◌≡◌, refl, ◌∙◌, ap, inl, inr, Bool, some, List, arith, Bool-cases}
use unith_task.Prelude.Result.{Result, ok, raised}
use unith_task.Config.{Settings}
use unith_task.Json.{Codec}
use unith_task.Runtime.{Runtime}
use unith_task.Db.{DeliveryAttempt, Database, has_id, find_attempt}
use unith_task.Db.Lookup.{find_attempt-update}
use unith_task.Delivery.Lifecycle.{IsSameAttempt, same_attempt}
use unith_task.Delivery.Claim.{
  update_attempts, claim_row, reset_row, claim_batch, reset_stale_in_flight,
}
use unith_task.Delivery.Worker.Frame.{Effect, dispatch-Effect}
use unith_task.Consumer.Service.Attempts.{step-Appends}
use unith_task.Api.Deliveries.{retried_row, retry_delivery}
use unith_task.System.{
  System, database_of, Happens, consume, claim, deliver_one, crash, clean_up, retry, subscribe,
  amend, unsubscribe, Reach, start, later,
}
use unith_task.System.Tables.{
  retry_cases, find_attempt-Appends, find_attempt-table, create_subscriber-attempts,
  patch_row-attempts, delete_subscriber-attempts,
}

IsSameAttempt-refl : (a : DeliveryAttempt) → IsSameAttempt a a
IsSameAttempt-refl a = same_attempt a a refl refl refl refl

-- The attempt of one table stands in the other.
abbrev pub Endures : ℕ → Database → Database → Type 0
Endures i db db' =
    (a : DeliveryAttempt)
    → find_attempt i db ≡ some a
    → (b : DeliveryAttempt) × (find_attempt i db' ≡ some b) × IsSameAttempt a b

module _ (i : ℕ) where
  pub Endures-same : (db db' : Database) → find_attempt i db' ≡ find_attempt i db → Endures i db db'
  Endures-same db db' e a found = (a, e ∙ found, IsSameAttempt-refl a)

  pub Endures-trans : (a b c : Database) → Endures i a b → Endures i b c → Endures i a c
  Endures-trans a b c h k x found =
      let (y, found', one) = h x found in
      let (z, found'', two) = k y found' in
      (
        z,
        found'',
        same_attempt x z (two.same_id ∙ one.same_id) (two.same_message ∙ one.same_message)
            (two.same_subscriber ∙ one.same_subscriber) (two.same_creation ∙ one.same_creation),
      )

  Endures-update :
      (p : DeliveryAttempt → Bool) (f : DeliveryAttempt → DeliveryAttempt) (db : Database)
      → ((a : DeliveryAttempt) → IsSameAttempt a (f a))
      → Endures i db (update_attempts p f db)
  Endures-update p f db keep a found =
      let after = find_attempt-update i p f db (λ x. (keep x).same_id) in
      elim (Bool-cases (p a)) [
        | inl hit ↦ (f a, ground (arith, after, found, hit), keep a)
        | inr miss ↦ (a, ground (arith, after, found, miss), IsSameAttempt-refl a)
      ]

  reset-Endures :
      (s : Settings) (now : ℕ) (db : Database) → Endures i db (reset_stale_in_flight s now db)
  unfolding reset_stale_in_flight
  reset-Endures s now db =
      Endures-update _ (reset_row now) db
        (λ a. same_attempt a (reset_row now a) refl refl refl refl)

  claim-Endures :
      (scan : ℕ → List DeliveryAttempt → List DeliveryAttempt) (now : ℕ) (db : Database)
      → Endures i db (claim_batch scan now db).1
  unfolding claim_batch
  claim-Endures scan now db =
      Endures-update _ (claim_row now) db
        (λ a. same_attempt a (claim_row now a) refl refl refl refl)

  Effect-Endures :
      (id : ℕ) (db db' : Database) (r : Result (Unit {0})) → Effect id db r db' → Endures i db db'
  Effect-Endures id db db' (raised e) h = Endures-same db db' (ap (find_attempt i) h)
  Effect-Endures id db db' (ok x) h = rw h.written (Endures-update (has_id id) h.change db h.keeps)

  retry-Endures :
      (id now updated : ℕ) (db : Database) → Endures i db (retry_delivery id now updated db).1
  retry-Endures id now updated db = elim (retry_cases id now updated db) [
    | inl same ↦ Endures-same db _ (ap (find_attempt i) same)
    | inr (a, found, hit, e) ↦ rw e (
        Endures-update (has_id id) (retried_row now updated) db
          (λ x. same_attempt x (retried_row now updated x) refl refl refl refl))
  ]

  same_table : (db db' : Database) → db'.delivery_attempts ≡ db.delivery_attempts → Endures i db db'
  same_table db db' e = Endures-same db db' (find_attempt-table i db db' e)

module _ (s : Settings) (codec : Codec) (rt : Runtime) (i : ℕ) where
  Happens-Endures :
      (v w : System) → Happens s codec rt v w → Endures i (database_of v) (database_of w)
  Happens-Endures v _ (consume t keys) = λ a found. (
    a,
    find_attempt-Appends i (database_of v) _ (step-Appends s codec t v.service) found,
    IsSameAttempt-refl a,
  )
  Happens-Endures v _ (claim scan now ok_scan) = claim-Endures i scan now (database_of v)
  Happens-Endures v _ (deliver_one env metrics sub before c after e) =
      Effect-Endures i c.attempt.id (database_of v) _ _
        (dispatch-Effect s rt env c sub (record { database = database_of v; metrics = metrics }))
  Happens-Endures v _ (crash before c after e) = same_table i (database_of v) _ refl
  Happens-Endures v _ (clean_up now recent) = reset-Endures i s now (database_of v)
  Happens-Endures v _ (retry id now updated) = retry-Endures i id now updated (database_of v)
  Happens-Endures v _ (subscribe id secret now body) =
      same_table i (database_of v) _ (create_subscriber-attempts id secret now body (database_of v))
  Happens-Endures v _ (amend id body now) =
      same_table i (database_of v) _ (patch_row-attempts id body now (database_of v))
  Happens-Endures v _ (unsubscribe id now) =
      same_table i (database_of v) _ (delete_subscriber-attempts id now (database_of v))

  pub Reach-Endures :
      (v w : System) → Reach s codec rt v w → Endures i (database_of v) (database_of w)
  Reach-Endures v _ start = same_table i (database_of v) _ refl
  Reach-Endures v _ (later {w} {x} r h) =
      Endures-trans i (database_of v) (database_of w) (database_of x) (Reach-Endures v w r)
        (Happens-Endures w x h)
