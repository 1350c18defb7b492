-- ===== src/Delivery/Worker/Batch/Runs.antt =====
-- A whole batch, and any sequence of the worker's jobs.
use mathlib.Core.Path.{subst}
use unith_task.Prelude.{
  ℕ, suc, ◌+◌, ◌≡◌, refl, sym, ◌∙◌, ap, inl, inr, Bool, true, false, not, some, List, [], ◌∷◌, map,
  arith, length, All, All-map, All-map_of, All-and, ◌==◌, ==_iff, Bool-cases,
}
use unith_task.Prelude.Result.{Result, ok, Result-cases}
use unith_task.Config.{Settings}
use unith_task.Runtime.{Runtime}
use unith_task.Db.{in_flight, DeliveryAttempt, Database, same_status, find_attempt}
use unith_task.Db.Table.{where_rows, All-where_rows, All-where_rows_of, IsScan}
use unith_task.Db.Lookup.{IsKeyed}
use unith_task.Delivery.Claim.{Worker, Env, Claimed, is_claimable, member, load, claim_batch}
use unith_task.Delivery.Worker.{deliver_attempt, deliver_all, deliver_claimed, process_batch}
use unith_task.Delivery.Worker.Batch.Claims.{claimed_id}
use unith_task.Delivery.Worker.Frame.{
  NotInFlight, deliver_attempt-Effect, Effect-other, Effect-ok, Effect-NotInFlight, Effect-IsKeyed,
}

-- Two rows that their ids find and a test tells apart have different ids.
pub apart_by :
    (i : ℕ) (db : Database) (p : DeliveryAttempt → Bool) {a x : DeliveryAttempt}
    → find_attempt x.id db ≡ some x
    → find_attempt i db ≡ some a
    → p x ≡ true
    → p a ≡ false
    → (i == x.id) ≡ false
apart_by i db p {a} {x} found e hit miss = elim (Bool-cases (i == x.id)) [
  | inl eq ↦ absurd (cc (ap (λ j. find_attempt j db) ((==_iff i x.id).0 eq)))
  | inr ne ↦ ne
]

-- No claim takes a row of another status than pending or failed.
pub claim_avoids :
    (scan : ℕ → List DeliveryAttempt → List DeliveryAttempt) (now i : ℕ) (db : Database)
    {a : DeliveryAttempt}
    → IsScan scan
    → IsKeyed db
    → find_attempt i db ≡ some a
    → is_claimable now a ≡ false
    → All (λ c. (i == c.attempt.id) ≡ false) (claim_batch scan now db).0
unfolding claim_batch
claim_avoids scan now i db {a} ok_scan keyed e no_claim =
    let p = is_claimable now in
    let rows = db.delivery_attempts in
    All-map_of (λ c. (i == c.attempt.id) ≡ false) (load db) _
      (All-map (λ x. not (i == x.id) ≡ true) _ (scan 50 (where_rows p rows)) (λ x h. ground arith)
        (ok_scan.selected (λ x. not (i == x.id)) 50 (where_rows p rows)
          (All-map (λ x. (find_attempt x.id db ≡ some x) × (p x ≡ true)) _ (where_rows p rows)
            (λ x (found, hit). ground (arith, apart_by i db p found e hit no_claim))
            (All-and (λ x. find_attempt x.id db ≡ some x) (λ x. p x ≡ true) (where_rows p rows)
              (All-where_rows_of (λ x. find_attempt x.id db ≡ some x) p rows keyed)
              (All-where_rows p rows)))))

settled_at :
    (i : ℕ) (db : Database) (cs : List Claimed)
    → member i (map claimed_id cs) ≡ true
    → All (λ c. NotInFlight c.attempt.id db) cs
    → NotInFlight i db
settled_at i db [] hit h = absurd (cc)
settled_at i db (c ∷ cs) hit h = elim (Bool-cases (i == c.attempt.id)) [
  | inl eq ↦ subst (λ j. NotInFlight j db) (sym ((==_iff i c.attempt.id).0 eq)) h.0
  | inr ne ↦ settled_at i db cs (ground arith) h.1
]

module _ (s : Settings) (rt : Runtime) where
  -- A property of databases that single deliveries keep holds behind the whole loop.
  deliver_all_inv {ℓ} :
      (P : Database → Type ℓ) (Q : Claimed → Type ℓ)
      → ((env : Env) (c : Claimed) (w : Worker)
          → Q c
          → P w.database
          → P (deliver_attempt s rt env c w).1.database)
      → (envs : ℕ → Env) (n : ℕ) (cs : List Claimed) (w : Worker) → All Q cs
      → P w.database
      → P (deliver_all s rt envs n cs w).1.database
  unfolding deliver_all
  deliver_all_inv P Q keep envs n [] w q h = h
  deliver_all_inv P Q keep envs n (c ∷ cs) w q h =
      let one = keep (envs n) c w q.0 h in
      elim (Result-cases (deliver_attempt s rt (envs n) c w).0) [
        | inl (x, e) ↦ rw (e, deliver_all) (deliver_all_inv P Q keep envs (suc n) cs _ q.1 one)
        | inr (x, e) ↦ rw (e, deliver_all) one
      ]

  All-claimed : (cs : List Claimed) → All (λ c. Unit {0}) cs
  All-claimed [] = tt
  All-claimed (c ∷ cs) = (tt, All-claimed cs)

  deliver_all-NotInFlight :
      (i : ℕ) (envs : ℕ → Env) (n : ℕ) (cs : List Claimed) (w : Worker)
      → NotInFlight i w.database
      → NotInFlight i (deliver_all s rt envs n cs w).1.database
  deliver_all-NotInFlight i envs n cs w =
      deliver_all_inv (NotInFlight i) (λ c. Unit {0})
        (λ env c w _ h.
          Effect-NotInFlight c.attempt.id i _ _ _ (deliver_attempt-Effect s rt env c w) h)
        envs n cs w (All-claimed cs)

  deliver_all_step :
      (envs : ℕ → Env) (n : ℕ) (c : Claimed) (cs : List Claimed) (w : Worker) (x : Unit {0})
      → (deliver_attempt s rt (envs n) c w).0 ≡ ok x
      → deliver_all s rt envs n (c ∷ cs) w
        ≡ deliver_all s rt envs (suc n) cs (deliver_attempt s rt (envs n) c w).1
  unfolding deliver_all
  deliver_all_step envs n c cs w x e = rw (e, deliver_all)

  deliver_all_settles :
      (envs : ℕ → Env) (n k : ℕ) (cs : List Claimed) (w : Worker)
      → (deliver_all s rt envs n cs w).0 ≡ ok k
      → (k ≡ n + length cs)
        × All (λ c. NotInFlight c.attempt.id (deliver_all s rt envs n cs w).1.database) cs
  unfolding deliver_all
  deliver_all_settles envs n k [] w h = (ground arith, tt)
  deliver_all_settles envs n k (c ∷ cs) w h =
      let w' = (deliver_attempt s rt (envs n) c w).1 in
      let effect = deliver_attempt-Effect s rt (envs n) c w in
      elim (Result-cases (deliver_attempt s rt (envs n) c w).0) [
        | inl (x, e) ↦
            let ih = deliver_all_settles envs (suc n) k cs w' (rw (e, deliver_all) at h) in
            let first =
              Effect-ok c.attempt.id c.attempt.id w.database w'.database x (rw e at effect)
                (ground arith) in
            subst
              (λ (r : Result ℕ × Worker).
                (k ≡ n + length (c ∷ cs))
                × All (λ d. NotInFlight d.attempt.id r.1.database) (c ∷ cs))
              (sym (deliver_all_step envs n c cs w x e))
              (
                omega (arith, ih.0),
                (deliver_all-NotInFlight c.attempt.id envs (suc n) cs w' first, ih.1),
              )
        | inr (x, e) ↦ absurd (ground arith)
      ]

  deliver_claimed_settles :
      (envs : ℕ → Env) (claim : List Claimed × Database) (w : Worker) (k : ℕ)
      → (deliver_claimed s rt envs claim w).0 ≡ ok k
      → (k ≡ length claim.0)
        × All (λ c. NotInFlight c.attempt.id (deliver_claimed s rt envs claim w).1.database) claim.0
  unfolding deliver_claimed
  deliver_claimed_settles envs ([], db) w k h = (ground arith, tt)
  deliver_claimed_settles envs (c ∷ cs, db) w k h =
      let (count, settled) = deliver_all_settles envs 0 k (c ∷ cs) (record w { database = db }) h in
      (omega (arith, count), settled)

  -- A batch that ends without an exception counts every row that it claimed, and leaves none of
  -- them in flight.
  pub process_batch_settles :
      (scan : ℕ → List DeliveryAttempt → List DeliveryAttempt) (now : ℕ) (envs : ℕ → Env)
      (w : Worker) (i k : ℕ) {a : DeliveryAttempt}
      → (process_batch s rt scan now envs w).0 ≡ ok k
      → member i (map claimed_id (claim_batch scan now w.database).0) ≡ true
      → find_attempt i (process_batch s rt scan now envs w).1.database ≡ some a
      → (k ≡ length (claim_batch scan now w.database).0) × (same_status a.status in_flight ≡ false)
  unfolding process_batch
  process_batch_settles scan now envs w i k {a} h hit e =
      let cs = (claim_batch scan now w.database).0 in
      let (count, settled) = deliver_claimed_settles envs (claim_batch scan now w.database) w k h in
      (count, settled_at i _ cs hit settled a e)

  deliver_all_other :
      (i : ℕ) (envs : ℕ → Env) (n : ℕ) (cs : List Claimed) (w : Worker)
      → All (λ c. (i == c.attempt.id) ≡ false) cs
      → find_attempt i (deliver_all s rt envs n cs w).1.database ≡ find_attempt i w.database
  deliver_all_other i envs n cs w ne =
      deliver_all_inv (λ db. find_attempt i db ≡ find_attempt i w.database)
        (λ c. (i == c.attempt.id) ≡ false)
        (λ env c w' apart h.
          Effect-other c.attempt.id i w'.database _ _ (deliver_attempt-Effect s rt env c w') apart
          ∙ h)
        envs n cs w ne refl

  deliver_all-IsKeyed :
      (envs : ℕ → Env) (n : ℕ) (cs : List Claimed) (w : Worker)
      → IsKeyed w.database
      → IsKeyed (deliver_all s rt envs n cs w).1.database
  deliver_all-IsKeyed envs n cs w k =
      deliver_all_inv IsKeyed (λ c. Unit {0})
        (λ env c w' _ h.
          Effect-IsKeyed c.attempt.id c.attempt.id w'.database _ _
            (deliver_attempt-Effect s rt env c w') h)
        envs n cs w (All-claimed cs) k

  pub deliver_claimed_other :
      (i : ℕ) (envs : ℕ → Env) (claim : List Claimed × Database) (w : Worker)
      → All (λ c. (i == c.attempt.id) ≡ false) claim.0
      → find_attempt i claim.1 ≡ find_attempt i w.database
      → find_attempt i (deliver_claimed s rt envs claim w).1.database ≡ find_attempt i w.database
  unfolding deliver_claimed
  deliver_claimed_other i envs ([], db) w ne h = refl
  deliver_claimed_other i envs (c ∷ cs, db) w ne h =
      deliver_all_other i envs 0 (c ∷ cs) (record w { database = db }) ne ∙ h

  pub deliver_claimed-IsKeyed :
      (envs : ℕ → Env) (claim : List Claimed × Database) (w : Worker)
      → IsKeyed w.database
      → IsKeyed claim.1
      → IsKeyed (deliver_claimed s rt envs claim w).1.database
  unfolding deliver_claimed
  deliver_claimed-IsKeyed envs ([], db) w k k' = k
  deliver_claimed-IsKeyed envs (c ∷ cs, db) w k k' =
      deliver_all-IsKeyed envs 0 (c ∷ cs) (record w { database = db }) k'
