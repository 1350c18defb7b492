-- ===== src/Delivery/Worker/Stages.antt =====
-- A delivery takes its attempt one stage on.
use mathlib.Core.Path.{subst}
use unith_task.Prelude.{
  ℕ, suc, ◌+◌, ◌≡◌, refl, sym, ◌∙◌, ap, inl, inr, ◌⊎◌, Option, none, some, arith, leb, Bool-cases,
}
use unith_task.Prelude.Result.{Result, ok, raised}
use unith_task.Config.{Settings}
use unith_task.Runtime.{Runtime}
use unith_task.Db.{
  Subscriber, IdempotencyKey, DeliveryStatus, in_flight, delivered, dead, DeliveryAttempt, Database,
  is_live, has_id, find_attempt,
}
use unith_task.Db.Lookup.{find_attempt-update_id}
use unith_task.Delivery.Lifecycle.{Stage, stage_of, Moves, succeeded, rejected, exhausted, orphaned}
use unith_task.Delivery.Sender.{DeliveryResult}
use unith_task.Delivery.Claim.{DeliveryMetrics, Worker, Env, Claimed, update_attempts}
use unith_task.Delivery.Worker.{
  judge, result_row, finish, observe_delivery, send, dispatch, kill_row,
}

module _ (s : Settings) (rt : Runtime) where
  -- The branches on the result choose among three stages.
  judge-Moves :
      (env : Env) (n : ℕ) (r : DeliveryResult) (m : DeliveryMetrics)
      → Moves s.delivery_max_attempts (in_flight, n) ((judge s env (n + 1) r m).new_status, n + 1)
  unfolding judge
  judge-Moves env n r m =
      let counted : (st : DeliveryStatus)
          → Moves s.delivery_max_attempts (in_flight, n) (st, suc n)
          → Moves s.delivery_max_attempts (in_flight, n) (st, n + 1) =
        λ st h. subst (λ k. Moves s.delivery_max_attempts (in_flight, n) (st, k)) (omega arith) h in
      elim (Bool-cases r.success) [
        | inl fine ↦ rw (fine, judge) (counted delivered (succeeded n))
        | inr bad ↦ elim (Bool-cases (leb s.delivery_max_attempts (n + 1))) [
          | inl last ↦ rw (bad, last, judge) (counted dead (exhausted n (ground arith)))
          | inr more ↦
              rw (bad, more, judge) (counted DeliveryStatus.failed (rejected n (ground arith)))
        ]
      ]

  -- The database is as it was, or the row is rewritten with a legal move.
  record Advances (id count : ℕ) (db db' : Database) : Type 0 where
    change : DeliveryAttempt → DeliveryAttempt
    keeps_id : (a : DeliveryAttempt) → (change a).id ≡ a.id
    written : db' ≡ update_attempts (has_id id) change db
    moves :
        (a : DeliveryAttempt)
        → stage_of a ≡ (in_flight, count)
        → Moves s.delivery_max_attempts (stage_of a) (stage_of (change a))

  kill-Advances :
      (env : Env) (c : Claimed) (db : Database)
      → Advances c.attempt.id c.attempt.attempt_count db
          (update_attempts (has_id c.attempt.id) (kill_row env.now) db)
  kill-Advances env c db = record {
    change = kill_row env.now;
    keeps_id = λ a. refl;
    written = refl;
    moves = λ a e.
        subst (λ (st : Stage). Moves s.delivery_max_attempts st (dead, st.1)) (sym e)
          (orphaned c.attempt.attempt_count);
  }

  finish-Advances :
      (env : Env) (a : DeliveryAttempt) (r : Result DeliveryResult) (w : Worker)
      → let db' = (finish s env a r w).1.database in
        (db' ≡ w.database) ⊎ Advances a.id a.attempt_count w.database db'
  unfolding finish
  finish-Advances env a (raised e) w = inl refl
  finish-Advances env a (ok r) w = inr (record {
    change =
        result_row env (a.attempt_count + 1) r
          (judge s env (a.attempt_count + 1) r (observe_delivery env w.metrics));
    keeps_id = λ x. refl;
    written = refl;
    moves = λ x e.
        subst
          (λ (st : Stage). Moves s.delivery_max_attempts st (
            (judge s env (a.attempt_count + 1) r (observe_delivery env w.metrics)).new_status,
            a.attempt_count + 1,
          ))
          (sym e) (judge-Moves env a.attempt_count r (observe_delivery env w.metrics));
  })

  send-Advances :
      (env : Env) (a : DeliveryAttempt) (ik : Option IdempotencyKey) (sub : Subscriber) (w : Worker)
      → let db' = (send s rt env a ik sub w).1.database in
        (db' ≡ w.database) ⊎ Advances a.id a.attempt_count w.database db'
  unfolding send
  send-Advances env a none sub w = inl refl
  send-Advances env a (some ik) sub w = finish-Advances env a _ _

  dispatch-Advances :
      (env : Env) (c : Claimed) (sub : Option Subscriber) (w : Worker)
      → let db' = (dispatch s rt env c sub w).1.database in
        (db' ≡ w.database) ⊎ Advances c.attempt.id c.attempt.attempt_count w.database db'
  unfolding dispatch
  dispatch-Advances env c none w = inr (kill-Advances env c w.database)
  dispatch-Advances env c (some sub) w = elim (Bool-cases (is_live sub)) [
    | inl live ↦ rw (live, dispatch) (send-Advances env c.attempt c.idempotency_key sub w)
    | inr gone ↦ rw (gone, dispatch) (inr (kill-Advances env c w.database))
  ]

  -- An attempt that is in flight as it was claimed: the delivery writes nothing, or moves it to
  -- its next stage.
  pub dispatch-stage :
      (env : Env) (c : Claimed) (sub : Option Subscriber) (w : Worker) (a : DeliveryAttempt)
      → find_attempt c.attempt.id w.database ≡ some a
      → stage_of a ≡ (in_flight, c.attempt.attempt_count)
      → let db' = (dispatch s rt env c sub w).1.database in
        (db' ≡ w.database)
        ⊎ ((b : DeliveryAttempt) × (find_attempt c.attempt.id db' ≡ some b)
            × Moves s.delivery_max_attempts (stage_of a) (stage_of b))
  dispatch-stage env c sub w a found e = elim (dispatch-Advances env c sub w) [
    | inl same ↦ inl same
    | inr h ↦ inr (
      h.change a,
      ap (find_attempt c.attempt.id) h.written
          ∙ ground (
            arith,
            find_attempt-update_id c.attempt.id c.attempt.id h.change w.database h.keeps_id,
            found,
          ),
      h.moves a e,
    )
  ]
