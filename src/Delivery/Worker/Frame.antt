-- ===== src/Delivery/Worker/Frame.antt =====
-- What `_deliver_attempt` may change at all.
use mathlib.Core.Option
use unith_task.Prelude.{
  ℕ, ◌+◌, ◌≡◌, refl, inl, inr, true, false, Option, none, some, arith, ap, sym, ◌∙◌, ◌==◌,
  if◌then◌else◌, Bool-cases, Option-cases,
}
use unith_task.Prelude.Result.{Result, ok, raised}
use unith_task.Config.{Settings}
use unith_task.Runtime.{Runtime}
use unith_task.Db.{
  Subscriber, IdempotencyKey, in_flight, DeliveryAttempt, Database, is_live, has_id, same_status,
  find_attempt,
}
use unith_task.Db.Lookup.{find_attempt-update_id, IsKeyed, update-IsKeyed}
use unith_task.Delivery.Lifecycle.{IsSameAttempt, same_attempt}
use unith_task.Delivery.Sender.{DeliveryResult}
use unith_task.Delivery.Claim.{DeliveryMetrics, Worker, Env, Claimed, update_attempts}
use unith_task.Delivery.Worker.{
  judge, result_row, finish, observe_delivery, send, dispatch, kill_row, deliver_attempt,
}

judge_settles :
    (s : Settings) (env : Env) (count : ℕ) (r : DeliveryResult) (m : DeliveryMetrics)
    → same_status (judge s env count r m).new_status in_flight ≡ false
unfolding judge
judge_settles s env count r m = ground arith

-- A delivery that raises writes nothing. One that returns rewrites the row of its attempt, which
-- stays of the same event and subscriber, and leaves a status other than `in_flight`.
pub record Settles (id : ℕ) (db db' : Database) : Type 0 where
  pub change : DeliveryAttempt → DeliveryAttempt
  pub keeps : (a : DeliveryAttempt) → IsSameAttempt a (change a)
  pub settled : (a : DeliveryAttempt) → same_status (change a).status in_flight ≡ false
  pub written : db' ≡ update_attempts (has_id id) change db

abbrev pub Effect : ℕ → Database → Result (Unit {0}) → Database → Type 0
Effect id db (raised e) db' = db' ≡ db
Effect id db (ok _) db' = Settles id db db'

module _ (s : Settings) (rt : Runtime) where
  kill_Settles :
      (env : Env) (id : ℕ) (db : Database)
      → Settles id db (update_attempts (has_id id) (kill_row env.now) db)
  kill_Settles env id db = record {
    change = kill_row env.now;
    keeps = λ a. same_attempt a (kill_row env.now a) refl refl refl refl;
    settled = λ a. refl;
    written = refl;
  }

  finish-Effect :
      (env : Env) (a : DeliveryAttempt) (r : Result DeliveryResult) (w : Worker)
      → let (result, w') = finish s env a r w in Effect a.id w.database result w'.database
  unfolding finish
  finish-Effect env a (raised e) w = refl
  finish-Effect env a (ok r) w = record {
    change =
        result_row env (a.attempt_count + 1) r
          (judge s env (a.attempt_count + 1) r (observe_delivery env w.metrics));
    keeps = λ x. same_attempt x _ refl refl refl refl;
    settled = λ x. judge_settles s env (a.attempt_count + 1) r (observe_delivery env w.metrics);
    written = refl;
  }

  send-Effect :
      (env : Env) (a : DeliveryAttempt) (ik : Option IdempotencyKey) (sub : Subscriber) (w : Worker)
      → let (result, w') = send s rt env a ik sub w in Effect a.id w.database result w'.database
  unfolding send
  send-Effect env a none sub w = refl
  send-Effect env a (some ik) sub w = finish-Effect env a _ _

  pub dispatch-Effect :
      (env : Env) (c : Claimed) (sub : Option Subscriber) (w : Worker)
      → let (result, w') = dispatch s rt env c sub w in
        Effect c.attempt.id w.database result w'.database
  unfolding dispatch
  dispatch-Effect env c none w = kill_Settles env c.attempt.id w.database
  dispatch-Effect env c (some sub) w = elim (Bool-cases (is_live sub)) [
    | inl live ↦ rw (live, dispatch) (send-Effect env c.attempt c.idempotency_key sub w)
    | inr gone ↦ rw (gone, dispatch) (kill_Settles env c.attempt.id w.database)
  ]

  pub deliver_attempt-Effect :
      (env : Env) (c : Claimed) (w : Worker)
      → let (result, w') = deliver_attempt s rt env c w in
        Effect c.attempt.id w.database result w'.database
  unfolding deliver_attempt
  deliver_attempt-Effect env c w = dispatch-Effect env c _ w

-- The row of an id, if there is one, is not claimed.
abbrev pub NotInFlight : ℕ → Database → Type 0
NotInFlight i db =
    (a : DeliveryAttempt) → find_attempt i db ≡ some a → same_status a.status in_flight ≡ false

module _ (id i : ℕ) (db db' : Database) where
  Settles-lookup :
      (h : Settles id db db')
      → find_attempt i db'
        ≡ (if i == id then Option.map h.change (find_attempt i db) else find_attempt i db)
  Settles-lookup h =
      rw h.written (find_attempt-update_id i id h.change db (λ x. (h.keeps x).same_id))

  pub Effect-other :
      (r : Result (Unit {0}))
      → Effect id db r db'
      → (i == id) ≡ false
      → find_attempt i db' ≡ find_attempt i db
  Effect-other (raised e) h ne = ap (find_attempt i) h
  Effect-other (ok x) h ne = ground (arith, Settles-lookup h)

  pub Effect-ok : (x : Unit {0}) → Effect id db (ok x) db' → (i == id) ≡ true → NotInFlight i db'
  Effect-ok x h eq a e = elim (Option-cases (find_attempt i db)) [
    | inl gone ↦ absurd (ground (arith, Settles-lookup h))
    | inr (b, found) ↦ ground (arith, Settles-lookup h, h.settled b)
  ]

  pub Effect-NotInFlight :
      (r : Result (Unit {0})) → Effect id db r db' → NotInFlight i db → NotInFlight i db'
  Effect-NotInFlight (raised e) h n = rw h n
  Effect-NotInFlight (ok x) h n = elim (Bool-cases (i == id)) [
    | inl eq ↦ Effect-ok x h eq
    | inr ne ↦ λ a e. n a (sym (Effect-other (ok x) h ne) ∙ e)
  ]

  pub Effect-IsKeyed : (r : Result (Unit {0})) → Effect id db r db' → IsKeyed db → IsKeyed db'
  Effect-IsKeyed (raised e) h k = rw h k
  Effect-IsKeyed (ok x) h k =
      rw h.written (update-IsKeyed (has_id id) h.change db (λ x. (h.keeps x).same_id) k)

  -- A delivery writes no other table.
  pub Effect-tables :
      (r : Result (Unit {0}))
      → Effect id db r db'
      → (db'.subscribers ≡ db.subscribers) × (db'.idempotency_keys ≡ db.idempotency_keys)
  Effect-tables (raised e) h = (rw h, rw h)
  Effect-tables (ok x) h = (rw h.written, rw h.written)
