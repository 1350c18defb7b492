-- ===== src/System/Delivering.antt =====
-- A claim and a delivery that end as `delivered`.
use mathlib.Core.Path.{subst}
use unith_task.Prelude.{ℕ, ◌+◌, ◌≡◌, refl, ◌∙◌, true, none, some, List, [], ◌∷◌, ◌++◌, arith, ◌==◌}
use unith_task.Config.{Settings}
use unith_task.Json.{Codec}
use unith_task.Runtime.{Runtime}
use unith_task.Db.{
  Subscriber, IdempotencyKey, delivered, DeliveryAttempt, Database, is_live, find_attempt, find_key,
  find_subscriber,
}
use unith_task.Db.Keys.{HasKeys}
use unith_task.Db.Lookup.{find_attempt_id}
use unith_task.Delivery.Lifecycle.{stage}
use unith_task.Delivery.Sender.{response, DeliveryResult}
use unith_task.Delivery.Sender as Sender
use unith_task.Delivery.Worker.Batch.Claims.{claim_batch_lem}
use unith_task.Delivery.Claim.{
  DeliveryMetrics, Env, Claimed, is_claimable, claim_row, load, claim_batch,
}
use unith_task.Delivery.Worker.{deliver_attempt, judge}
use unith_task.Delivery.Worker.Outcome.{deliver_attempt_sent}
use unith_task.System.{
  System, database_of, with_tables, add_claims, tables_after, claim, deliver_one, crash, Reach,
  start, later,
}
use unith_task.System.Lookup.{only_row, only_row-IsSelection, only_row-found}

-- A row with its stored event and its live subscriber.
pub record IsDeliverable (i : ℕ) (db : Database) : Type 0 where
  pub row : DeliveryAttempt
  pub found : find_attempt i db ≡ some row
  pub event : IdempotencyKey
  pub stored : find_key row.message_id db ≡ some event
  pub subscriber : Subscriber
  pub present : find_subscriber row.subscriber_id db ≡ some subscriber
  pub live : is_live subscriber ≡ true

-- A client that answers 200, and counters.
abbrev answering : Env
answering = record {
  http = λ r. response 200 none;
  sent_at = 0;
  now = 0;
  elapsed = 0;
  uniform = λ a b. b;
}

abbrev no_counts : DeliveryMetrics
no_counts = record { attempted = 0; succeeded = 0; failures = []; dead_letters = 0; durations = [] }

module _ (s : Settings) (codec : Codec) (rt : Runtime) where
  abbrev pub CanDeliver : ℕ → System → Type 0
  CanDeliver i v =
      (w : System) × Reach s codec rt v w
      × ((n : ℕ) × (stage i (database_of w) ≡ some (delivered, n)))

  Reach-append :
      {v w x : System} → Reach s codec rt v w → Reach s codec rt w x → Reach s codec rt v x
  Reach-append r start = r
  Reach-append r (later q h) = later (Reach-append r q) h

  pub CanDeliver-later :
      (i : ℕ) {v w : System} → Reach s codec rt v w → CanDeliver i w → CanDeliver i v
  CanDeliver-later i r (x, q, done) = (x, Reach-append r q, done)

  -- All processes end.
  pub drop_all :
      (held : List Claimed) (v : System)
      → v.held ≡ held
      → Reach s codec rt v (with_tables (database_of v) [] v)
  drop_all [] v e = subst (λ hs. Reach s codec rt v (with_tables (database_of v) hs v)) e start
  drop_all (c ∷ cs) v e =
      Reach-append (later start (crash [] c cs e))
        (drop_all cs (with_tables (database_of v) cs v) refl)

  -- The claim of one row.
  abbrev one_claim : ℕ → ℕ → Database → List Claimed × Database
  one_claim i now db = claim_batch (only_row i) now db

  one_claim-single :
      (i now : ℕ) (db : Database) {a : DeliveryAttempt}
      → HasKeys db
      → find_attempt i db ≡ some a
      → is_claimable now a ≡ true
      → (one_claim i now db).0 ≡ load db a ∷ []
  unfolding claim_batch find_attempt
  one_claim-single i now db {a} keys found hit =
      rw (only_row-found i (is_claimable now) db.delivery_attempts {a = a} keys found hit) refl

  one_claim-found :
      (i now : ℕ) (db : Database) {a : DeliveryAttempt}
      → HasKeys db
      → find_attempt i db ≡ some a
      → is_claimable now a ≡ true
      → find_attempt i (one_claim i now db).1 ≡ some (claim_row now a)
  one_claim-found i now db {a} keys found hit = ground (
    arith,
    (claim_batch_lem (only_row i) (only_row-IsSelection i).choice now i db).2,
    one_claim-single i now db {a = a} keys found hit,
    found,
  )

  one_claim-subscriber :
      (i now j : ℕ) (db : Database)
      → find_subscriber j (one_claim i now db).1 ≡ find_subscriber j db
  unfolding claim_batch find_subscriber
  one_claim-subscriber i now j db = refl

  abbrev success : DeliveryResult
  success = record { success = true; status_code = some 200; error = none }

  sent_stage :
      (i : ℕ) (a : DeliveryAttempt) (e : IdempotencyKey) (sub : Subscriber) (db : Database)
      → find_subscriber a.subscriber_id db ≡ some sub
      → is_live sub ≡ true
      → (i == a.id) ≡ true
      → {b : DeliveryAttempt} → find_attempt i db ≡ some b
      → stage i
          (deliver_attempt s rt answering
            (record { attempt = a; idempotency_key = some e })
            (record { database = db; metrics = no_counts })).1.database
        ≡ some (delivered, a.attempt_count + 1)
  unfolding judge Sender.deliver
  sent_stage i a e sub db there live same {b} found =
      let (fine, after, counts) =
        deliver_attempt_sent s rt answering (record { attempt = a; idempotency_key = some e })
          (record { database = db; metrics = no_counts }) i {sub = sub} {ik = e} {r = success} there
          live refl refl in
      rw (after, same, found) refl

  -- A worker claims the row alone, and sends it.
  pub claim_and_deliver :
      (i now : ℕ) (v : System) (d : IsDeliverable i (database_of v))
      → v.held ≡ []
      → HasKeys (database_of v)
      → is_claimable now d.row ≡ true
      → CanDeliver i v
  unfolding deliver_attempt
  claim_and_deliver i now v d idle keys hit =
      let db = database_of v in
      let x = add_claims (one_claim i now db) v in
      let c : Claimed = record { attempt = d.row; idempotency_key = some d.event } in
      let first : Reach s codec rt v x =
        later start (claim (only_row i) now (only_row-IsSelection i)) in
      let held : x.held ≡ [] ++ c ∷ [] =
        rw (one_claim-single i now db {a = d.row} keys d.found hit, idle, d.stored) refl in
      let sub = find_subscriber d.row.subscriber_id (database_of x) in
      (
        with_tables (tables_after s codec rt answering no_counts sub c (database_of x)) [] x,
        later first (deliver_one answering no_counts sub [] c [] held),
        (
          d.row.attempt_count + 1,
          sent_stage i d.row d.event d.subscriber (database_of x)
              (one_claim-subscriber i now d.row.subscriber_id db ∙ d.present) d.live
              (rw (find_attempt_id i db d.found) (ground arith))
              (one_claim-found i now db {a = d.row} keys d.found hit),
        ),
      )
