-- ===== src/System/Refinement.antt =====
-- The life of every attempt over every interleaving of the processes.
use mathlib.Core.Path.{subst}
use unith_task.Prelude.{
  ℕ, ◌≡◌, refl, sym, ◌∙◌, ap, inl, inr, true, Option, some, List, [], ◌∷◌, map, arith, All, ◌==◌,
  ==_iff, Bool-cases, Option-cases,
}
use unith_task.Prelude.Apart.{All-without}
use unith_task.Config.{Settings}
use unith_task.Json.{Codec}
use unith_task.Runtime.{Runtime}
use unith_task.Db.{delivered, DeliveryAttempt, Database, find_attempt, Subscriber}
use unith_task.Db.Keys.{HasKeys, IsSelection}
use unith_task.Db.Lookup.{find_attempt-update, find_attempt_id}
use unith_task.Delivery.Lifecycle.{stage}
use unith_task.Delivery.Claim.{
  Worker, Env, Claimed, is_claimable, member, claim_row, attempt_id, claim_batch,
}
use unith_task.Delivery.Worker.{dispatch}
use unith_task.Delivery.Worker.Frame.{dispatch-Effect, Effect-other}
use unith_task.Delivery.Worker.Stages.{dispatch-stage}
use unith_task.Consumer.Service.Attempts.{step-Appends}
use unith_task.System.{
  System, database_of, Happens, consume, claim, deliver_one, crash, clean_up, retry, subscribe,
  amend, unsubscribe, Reach, start, later,
}
use unith_task.System.Claiming.{IsExclusive, IsLoaded, picked, picked-IsLoaded}
use unith_task.System.Lifecycle.{
  Passes, Passes-same, Passes-moved, claim-Moves, Progress-delivered, append-Passes, reset-Passes,
  retry-Passes,
}
use unith_task.System.Exclusion.{Happens-IsExclusive}
use unith_task.System.Tables.{
  IsHeld, find_attempt-table, create_subscriber-attempts, patch_row-attempts,
  delete_subscriber-attempts,
}

-- A claimed row was claimable.
member-IsLoaded :
    (now i : ℕ) (db : Database) (rows : List DeliveryAttempt) {a : DeliveryAttempt}
    → All (IsLoaded now db) rows
    → member i (map attempt_id rows) ≡ true
    → find_attempt i db ≡ some a
    → is_claimable now a ≡ true
member-IsLoaded now i db [] h hit found = absurd cc
member-IsLoaded now i db (x ∷ rows) {a} h hit found = elim (Bool-cases (i == x.id)) [
  | inr ne ↦ member-IsLoaded now i db rows h.1 (ground arith) found
  | inl eq ↦
      let same : some x ≡ some a =
        sym h.0.0 ∙ ap (λ j. find_attempt j db) (sym ((==_iff i x.id).0 eq)) ∙ found in
      let x_a : x ≡ a = cc same in subst (λ y. is_claimable now y ≡ true) x_a h.0.1
]

claim-Passes :
    (limit : ℕ) (scan : ℕ → List DeliveryAttempt → List DeliveryAttempt) (now i : ℕ) (db : Database)
    → IsSelection scan
    → HasKeys db
    → Passes limit i db (claim_batch scan now db).1
unfolding claim_batch
claim-Passes limit scan now i db ok_scan keys =
    let ids = map attempt_id (picked scan ok_scan now db keys) in
    let after = find_attempt-update i (λ x. member x.id ids) (claim_row now) db (λ x. refl) in
    elim (Option-cases (find_attempt i db)) [
      | inl gone ↦ Passes-same limit i db _ (ground (arith, after, gone))
      | inr (a, found) ↦
          let id : a.id ≡ i = find_attempt_id i db found in
          elim (Bool-cases (member i ids)) [
            | inl hit ↦
                let ready =
                  member-IsLoaded now i db (picked scan ok_scan now db keys)
                    (picked-IsLoaded scan ok_scan now db keys) hit found in
                Passes-moved limit i db _ a (claim_row now a) found
                  (after ∙ rw (found, id, hit) refl)
                  (claim-Moves limit a.status a.attempt_count (ground (arith, ready)))
            | inr miss ↦ Passes-same limit i db _ (after ∙ rw (found, id, miss) refl)
          ]
    ]

module _ (s : Settings) (codec : Codec) (rt : Runtime) where
  dispatch-Passes :
      (env : Env) (c : Claimed) (sub : Option Subscriber) (w : Worker) (i : ℕ)
      → IsHeld w.database c
      → Passes s.delivery_max_attempts i w.database (dispatch s rt env c sub w).1.database
  dispatch-Passes env c sub w i (a, found, st) =
      let limit = s.delivery_max_attempts in
      let db' = (dispatch s rt env c sub w).1.database in
      elim (Bool-cases (i == c.attempt.id)) [
        | inr ne ↦
            Passes-same limit i w.database db'
              (Effect-other c.attempt.id i w.database db' _ (dispatch-Effect s rt env c sub w) ne)
        | inl eq ↦
            subst (λ j. Passes limit j w.database db') (sym ((==_iff i c.attempt.id).0 eq))
              (elim (dispatch-stage s rt env c sub w a found st) [
                | inl same ↦
                    Passes-same limit c.attempt.id w.database db'
                      (ap (find_attempt c.attempt.id) same)
                | inr (b, found', m) ↦
                    Passes-moved limit c.attempt.id w.database db' a b found found' m
              ])
      ]

  -- Each step of the system, where claims are exclusive, leaves the stage of every attempt alone,
  -- creates the attempt as pending and never tried, or takes one move of the life cycle. The steps
  -- are the transactions of all processes, under three conditions: nothing comes between the SELECT
  -- and the commit of a retry request, the clean-up finds no held claim stale, and the ids that an
  -- intake draws are new.
  pub Happens-Passes :
      (i : ℕ) {v w : System}
      → IsExclusive (database_of v) v.held
      → Happens s codec rt v w
      → Passes s.delivery_max_attempts i (database_of v) (database_of w)
  Happens-Passes i {v} h (consume t keys) =
      append-Passes s.delivery_max_attempts i (database_of v) _ (step-Appends s codec t v.service)
  Happens-Passes i {v} h (claim scan now ok_scan) =
      claim-Passes s.delivery_max_attempts scan now i (database_of v) ok_scan h.keys
  Happens-Passes i {v} h (deliver_one env metrics sub before c after e) =
      dispatch-Passes env c sub (record { database = database_of v; metrics = metrics }) i
        (All-without (IsHeld (database_of v)) before c after (rw e at h.rows)).0
  Happens-Passes i h (crash before c after e) = inl refl
  Happens-Passes i {v} h (clean_up now recent) =
      reset-Passes s.delivery_max_attempts s now i (database_of v)
  Happens-Passes i {v} h (retry id now updated) =
      retry-Passes s.delivery_max_attempts id now updated i (database_of v)
  Happens-Passes i {v} h (subscribe id secret now body) =
      Passes-same s.delivery_max_attempts i (database_of v) _ (
        find_attempt-table i (database_of v) _
          (create_subscriber-attempts id secret now body (database_of v)))
  Happens-Passes i {v} h (amend id body now) =
      Passes-same s.delivery_max_attempts i (database_of v) _
        (find_attempt-table i (database_of v) _ (patch_row-attempts id body now (database_of v)))
  Happens-Passes i {v} h (unsubscribe id now) =
      Passes-same s.delivery_max_attempts i (database_of v) _
        (find_attempt-table i (database_of v) _ (delete_subscriber-attempts id now (database_of v)))

  -- A delivered attempt stays delivered, with the same count, over every interleaving that starts
  -- where claims are exclusive, in which nothing comes between the SELECT and the commit of a retry
  -- request, the clean-up finds no held claim stale and drawn ids are new: no worker sends it again,
  -- and no clean-up or retry revives it.
  pub Reach-delivered :
      (i n : ℕ) {v w : System}
      → IsExclusive (database_of v) v.held
      → Reach s codec rt v w
      → stage i (database_of v) ≡ some (delivered, n)
      → IsExclusive (database_of w) w.held × (stage i (database_of w) ≡ some (delivered, n))
  Reach-delivered i n h start e = (h, e)
  Reach-delivered i n h (later r t) e =
      let (h', e') = Reach-delivered i n h r e in
      (
        Happens-IsExclusive s codec rt t h',
        elim (Happens-Passes i h' t) [
          | inl same ↦ same ∙ e'
          | inr p ↦ absurd (Progress-delivered s.delivery_max_attempts n p e')
        ],
      )
