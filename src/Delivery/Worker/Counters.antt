-- ===== src/Delivery/Worker/Counters.antt =====
-- The counters of the worker.
use unith_task.Prelude.{
  ℕ, suc, ◌+◌, ◌≤◌, ◌≡◌, refl, sym, ◌∙◌, ap, length, String, Option, none, some, List, [], ◌∷◌,
  arith, inl, inr, Bool-cases,
}
use unith_task.Prelude.Result.{Result, ok, raised, Result-cases}
use unith_task.Config.{Settings}
use unith_task.Runtime.{Runtime}
use unith_task.Db.{Subscriber, IdempotencyKey, DeliveryAttempt, Database, is_live}
use unith_task.Delivery.Sender.{DeliveryResult}
use unith_task.Delivery.Claim.{DeliveryMetrics, inc_label, Worker, Env, Claimed, claim_batch}
use unith_task.Delivery.Worker.{
  attempting, observe_delivery, status_label, judge, record_result, finish, send, dispatch,
  deliver_attempt, deliver_all, deliver_claimed, process_batch, Job, reset, batch, work, run_jobs,
}

abbrev pub sum_labels : List (String × ℕ) → ℕ
sum_labels [] = 0
sum_labels ((l, n) ∷ rest) = n + sum_labels rest

-- The attempts whose result was counted.
abbrev pub settled : DeliveryMetrics → ℕ
settled m = m.succeeded + sum_labels m.failures + m.dead_letters

-- No more results than attempts, and as many observed durations as results.
abbrev pub IsCovered : Worker → Type 0
IsCovered w =
    (settled w.metrics ≤ w.metrics.attempted) × (length w.metrics.durations ≡ settled w.metrics)

sum_labels-inc_label :
    (l : String) (ls : List (String × ℕ)) → sum_labels (inc_label l ls) ≡ suc (sum_labels ls)
sum_labels-inc_label l [] = refl
sum_labels-inc_label l ((k, n) ∷ rest) = ground (arith, sum_labels-inc_label l rest)

-- A verdict counts its result once, and moves neither the count of attempts nor the durations.
judge-settled :
    (s : Settings) (env : Env) (n : ℕ) (r : DeliveryResult) (m : DeliveryMetrics)
    → (settled (judge s env n r m).metrics ≡ suc (settled m))
      × ((judge s env n r m).metrics.attempted ≡ m.attempted)
      × ((judge s env n r m).metrics.durations ≡ m.durations)
unfolding judge
judge-settled s env n r m = (
  ground (arith, sum_labels-inc_label (status_label r.status_code) m.failures),
  ground arith,
  ground arith,
)

module _ (s : Settings) (rt : Runtime) where
  finish-IsCovered :
      (env : Env) (a : DeliveryAttempt) (r : Result DeliveryResult) (w : Worker)
      → suc (settled w.metrics) ≤ w.metrics.attempted
      → length w.metrics.durations ≡ settled w.metrics
      → IsCovered (finish s env a r w).1
  unfolding finish record_result
  finish-IsCovered env a (raised e) w h same = (omega (arith, h), same)
  finish-IsCovered env a (ok r) w h same =
      let j = judge-settled s env (a.attempt_count + 1) r (observe_delivery env w.metrics) in
      (omega (arith, j.0, j.1, h), ap length j.2 ∙ ap suc same ∙ sym j.0)

  send-IsCovered :
      (env : Env) (a : DeliveryAttempt) (ik : Option IdempotencyKey) (sub : Subscriber) (w : Worker)
      → IsCovered w
      → IsCovered (send s rt env a ik sub w).1
  unfolding send
  send-IsCovered env a none sub w h = h
  send-IsCovered env a (some ik) sub w h =
      finish-IsCovered env a _ (record w { metrics = attempting w.metrics }) (omega (arith, h.0))
        h.1

  dispatch-IsCovered :
      (env : Env) (c : Claimed) (sub : Option Subscriber) (w : Worker)
      → IsCovered w
      → IsCovered (dispatch s rt env c sub w).1
  unfolding dispatch
  dispatch-IsCovered env c none w h = h
  dispatch-IsCovered env c (some sub) w h = elim (Bool-cases (is_live sub)) [
    | inl live ↦ rw (live, dispatch) (send-IsCovered env c.attempt c.idempotency_key sub w h)
    | inr gone ↦ rw (gone, dispatch) h
  ]

  deliver_attempt-IsCovered :
      (env : Env) (c : Claimed) (w : Worker)
      → IsCovered w
      → IsCovered (deliver_attempt s rt env c w).1
  unfolding deliver_attempt
  deliver_attempt-IsCovered env c w h = dispatch-IsCovered env c _ w h

  deliver_all-IsCovered :
      (envs : ℕ → Env) (n : ℕ) (cs : List Claimed) (w : Worker)
      → IsCovered w
      → IsCovered (deliver_all s rt envs n cs w).1
  unfolding deliver_all
  deliver_all-IsCovered envs n [] w h = h
  deliver_all-IsCovered envs n (c ∷ cs) w h =
      let one = deliver_attempt-IsCovered (envs n) c w h in
      elim (Result-cases (deliver_attempt s rt (envs n) c w).0) [
        | inl (x, e) ↦ rw (e, deliver_all) (deliver_all-IsCovered envs (suc n) cs _ one)
        | inr (x, e) ↦ rw (e, deliver_all) one
      ]

  deliver_claimed-IsCovered :
      (envs : ℕ → Env) (claim : List Claimed × Database) (w : Worker)
      → IsCovered w
      → IsCovered (deliver_claimed s rt envs claim w).1
  unfolding deliver_claimed
  deliver_claimed-IsCovered envs ([], db) w h = h
  deliver_claimed-IsCovered envs (c ∷ cs, db) w h =
      deliver_all-IsCovered envs 0 (c ∷ cs) (record w { database = db }) h

  work-IsCovered : (j : Job) (w : Worker) → IsCovered w → IsCovered (work s rt j w)
  unfolding work process_batch
  work-IsCovered (reset now) w h = h
  work-IsCovered (batch scan now envs) w h =
      deliver_claimed-IsCovered envs (claim_batch scan now w.database) w h

  -- Over any sequence of the worker's jobs, with any answers and exceptions, the successes, the
  -- failures under all labels and the dead letters together are at most the attempts, and as many as
  -- the durations that the histogram was given, if both are so at the start.
  pub run_jobs-IsCovered :
      (js : List Job) (w : Worker) → IsCovered w → IsCovered (run_jobs s rt js w)
  unfolding run_jobs
  run_jobs-IsCovered [] w h = h
  run_jobs-IsCovered (j ∷ js) w h = run_jobs-IsCovered js (work s rt j w) (work-IsCovered j w h)
