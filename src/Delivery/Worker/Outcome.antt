-- ===== src/Delivery/Worker/Outcome.antt =====
-- `_deliver_attempt`, branch by branch.
use mathlib.Core.Option
use unith_task.Prelude.{
  ℕ, ◌+◌, ◌≤◌, ◌<◌, ◌≡◌, refl, ◌↔◌, inl, inr, true, false, some, arith, ◌==◌, if◌then◌else◌,
  Option-cases,
}
use unith_task.Prelude.Result.{ok}
use unith_task.Config.{Settings}
use unith_task.Json.{value_or}
use unith_task.Runtime.{Runtime}
use unith_task.Db.{
  Subscriber, IdempotencyKey, DeliveryStatus, delivered, dead, DeliveryAttempt, is_live,
  find_attempt, find_subscriber,
}
use unith_task.Db.Lookup.{find_attempt-update_id}
use unith_task.Delivery.Backoff.{IsUniform}
use unith_task.Delivery.Backoff.Bounds.{backoff_bounds}
use unith_task.Delivery.Lifecycle.{IsSameAttempt}
use unith_task.Delivery.Sender.{DeliveryResult, deliver}
use unith_task.Delivery.Claim.{DeliveryMetrics, Worker, Env, Claimed}
use unith_task.Delivery.Worker.{
  judge, result_row, finish, attempting, observe_delivery, send, dispatch, kill_row,
  deliver_attempt,
}

-- A success is delivered. Any other result is dead if this attempt was the last one allowed, and
-- else failed. The next attempt is due at least now and at most the maximal delay later.
pub judge_status :
    (s : Settings) (env : Env) (count : ℕ) (r : DeliveryResult) (m : DeliveryMetrics)
    → IsUniform env.uniform
    → let v = judge s env count r m in
      ((v.new_status ≡ delivered) ↔ (r.success ≡ true))
      × ((v.new_status ≡ dead) ↔ ((r.success ≡ false) × (s.delivery_max_attempts ≤ count)))
      × ((v.new_status ≡ DeliveryStatus.failed)
          ↔ ((r.success ≡ false) × (count < s.delivery_max_attempts)))
      × (env.now ≤ v.next_attempt_at)
      × (v.next_attempt_at ≤ env.now + s.delivery_max_delay_ms)
unfolding judge
judge_status s env count r m u =
    let h = (backoff_bounds s env.uniform count u).1 in
    (
      (λ e. ground arith, λ e. ground arith),
      (λ e. ground arith, λ e. ground arith),
      (λ e. ground arith, λ e. ground arith),
      ground arith,
      ground (arith, h),
    )

module _ (s : Settings) (rt : Runtime) where
  -- If the subscriber is missing, inactive or deleted, the attempt is dead, no other row changes,
  -- and no counter moves.
  pub deliver_attempt_unusable :
      (env : Env) (c : Claimed) (w : Worker) (i : ℕ)
      → ((sub : Subscriber)
          → find_subscriber c.attempt.subscriber_id w.database ≡ some sub
          → is_live sub ≡ false)
      → let (r, w') = deliver_attempt s rt env c w in
        (r ≡ ok tt)
        × (find_attempt i w'.database ≡ (
            if i == c.attempt.id
            then Option.map (kill_row env.now) (find_attempt i w.database)
            else find_attempt i w.database))
        × (w'.metrics ≡ w.metrics)
  unfolding deliver_attempt
  deliver_attempt_unusable env c w i h =
      elim (Option-cases (find_subscriber c.attempt.subscriber_id w.database)) [
        | inl e ↦
            rw (e, deliver_attempt, dispatch)
              (
                refl,
                find_attempt-update_id i c.attempt.id (kill_row env.now) w.database (λ x. refl),
                refl,
              )
        | inr (sub, e) ↦
            rw (e, deliver_attempt, dispatch, h sub e)
              (
                refl,
                find_attempt-update_id i c.attempt.id (kill_row env.now) w.database (λ x. refl),
                refl,
              )
      ]

  -- An attempt with a live subscriber and a loaded event is sent with the enriched payload if
  -- there is a non-empty one, else with the raw one. If `deliver` returns a result, the attempt's
  -- row gets the verdict on that result under one more attempt, the duration of the request is observed,
  -- the counters move as the verdict says, and no other row changes.
  pub deliver_attempt_sent :
      (env : Env) (c : Claimed) (w : Worker) (i : ℕ)
      → {sub : Subscriber} {ik : IdempotencyKey} {r : DeliveryResult}
      → find_subscriber c.attempt.subscriber_id w.database ≡ some sub
      → is_live sub ≡ true
      → c.idempotency_key ≡ some ik
      → deliver rt env.http c.attempt.id sub.endpoint sub.secret ik.event_type
          (value_or ik.enriched_payload ik.raw_payload)
          env.sent_at
        ≡ ok r
      → let n = c.attempt.attempt_count + 1 in
        let m = observe_delivery env (attempting w.metrics) in
        let v = judge s env n r m in
        let (result, w') = deliver_attempt s rt env c w in
        (result ≡ ok tt)
        × (find_attempt i w'.database ≡ (
            if i == c.attempt.id
            then Option.map (result_row env n r v) (find_attempt i w.database)
            else find_attempt i w.database))
        × (w'.metrics ≡ v.metrics)
  unfolding deliver_attempt
  deliver_attempt_sent env c w i {sub} {ik} {r} found live loaded sent =
      rw (found, deliver_attempt, dispatch, live, loaded, send, sent, finish)
        (
          refl,
          find_attempt-update_id i c.attempt.id
              (result_row env (c.attempt.attempt_count + 1) r (
                judge s env (c.attempt.attempt_count + 1) r
                  (observe_delivery env (attempting w.metrics))))
              w.database (λ x. refl),
          refl,
        )

  -- What the row of an attempt says behind a request that was answered with `r`.
  pub record IsRecorded (env : Env) (n : ℕ) (r : DeliveryResult) (a b : DeliveryAttempt)
      : Type 0 where
    pub same : IsSameAttempt a b
    pub counted : b.attempt_count ≡ n + 1
    pub tried_at : b.last_attempt_at ≡ some env.now
    pub http_status : b.last_http_status ≡ r.status_code
    pub done : (b.status ≡ delivered) ↔ (r.success ≡ true)
    pub gone : (b.status ≡ dead) ↔ ((r.success ≡ false) × (s.delivery_max_attempts ≤ n + 1))
    pub again :
        (b.status ≡ DeliveryStatus.failed)
        ↔ ((r.success ≡ false) × (n + 1 < s.delivery_max_attempts))
    pub due : env.now ≤ b.next_attempt_at
    pub due_soon : b.next_attempt_at ≤ env.now + s.delivery_max_delay_ms
