-- ===== src/Delivery/Worker/Batch/Claims.antt =====
-- The claim of `_process_batch`.
use mathlib.Core.Option
use unith_task.Prelude.{
  ℕ, ◌≤◌, ◌≡◌, refl, true, false, some, List, [], ◌∷◌, map, arith, length, All, All-map_of,
  length-map, ◌==◌, if◌then◌else◌, Option-cases, inl, inr,
}
use unith_task.Db.{DeliveryAttempt, Database, find_attempt}
use unith_task.Db.Table.{where_rows, All-where_rows, IsScan}
use unith_task.Db.Lookup.{find_attempt-update, find_attempt_id, IsKeyed, update-IsKeyed}
use unith_task.Delivery.Claim.{
  Claimed, is_claimable, member, claim_row, attempt_id, load, claim_batch, update_attempts,
}

abbrev pub claimed_id : Claimed → ℕ
claimed_id c = c.attempt.id

map-load :
    (db : Database) (rows : List DeliveryAttempt)
    → map claimed_id (map (load db) rows) ≡ map attempt_id rows
map-load db [] = refl
map-load db (a ∷ rows) = cc (map-load db rows)

member-tail :
    (js : List ℕ) (j : ℕ) (rows : List DeliveryAttempt)
    → All (λ a. member a.id js ≡ true) rows
    → All (λ a. member a.id (j ∷ js) ≡ true) rows
member-tail js j [] h = tt
member-tail js j (a ∷ rows) h = (ground arith, member-tail js j rows h.1)

pub All-member :
    (rows : List DeliveryAttempt) → All (λ a. member a.id (map attempt_id rows) ≡ true) rows
All-member [] = tt
All-member (a ∷ rows) =
    (ground arith, member-tail (map attempt_id rows) a.id rows (All-member rows))

claimed_row-not-claimable :
    (i now : ℕ) (ids : List ℕ) (db : Database)
    → member i ids ≡ true
    → (a : DeliveryAttempt) (later : ℕ)
    → find_attempt i (update_attempts (λ a. member a.id ids) (claim_row now) db) ≡ some a
    → is_claimable later a ≡ false
claimed_row-not-claimable i now ids db hit a later e = elim (Option-cases (find_attempt i db)) [
  | inl gone ↦
      absurd (ground (arith, find_attempt-update i (λ a. member a.id ids) (claim_row now) db))
  | inr (b, found) ↦
      let same : member b.id ids ≡ true = rw (find_attempt_id i db found) hit in
      ground (
        arith,
        find_attempt-update i (λ a. member a.id ids) (claim_row now) db,
        find_attempt_id i db found,
        same,
      )
]

member_apart :
    (i : ℕ) (cs : List Claimed)
    → All (λ c. (i == c.attempt.id) ≡ false) cs
    → member i (map claimed_id cs) ≡ false
member_apart i [] h = refl
member_apart i (c ∷ cs) h = ground (arith, member_apart i cs h.1)

module _ (scan : ℕ → List DeliveryAttempt → List DeliveryAttempt) (ok_scan : IsScan scan) where
  -- A claim takes at most fifty rows, each pending or failed and due. Exactly the claimed rows are
  -- put in flight; every other row is as it was.
  pub claim_batch_lem :
      (now i : ℕ) (db : Database)
      → let (cs, db') = claim_batch scan now db in
        (length cs ≤ 50)
        × All (λ c. is_claimable now c.attempt ≡ true) cs
        × (find_attempt i db'
            ≡ Option.map
                (λ a. if member a.id (map claimed_id cs) then claim_row now a else a)
                (find_attempt i db))
  unfolding claim_batch
  claim_batch_lem now i db =
      let rows = scan 50 (where_rows (is_claimable now) db.delivery_attempts) in
      (
        rw (length-map rows (load db)) (ok_scan.limited 50 _),
        All-map_of (λ c. is_claimable now c.attempt ≡ true) (load db) rows
            (ok_scan.selected (is_claimable now) 50 _
              (All-where_rows (is_claimable now) db.delivery_attempts)),
        rw (map-load db rows) (
            find_attempt-update i (λ a. member a.id (map attempt_id rows)) (claim_row now) db
              (λ x. refl)),
      )

  -- Behind a claim the rows that it took do not meet the condition of the claiming query, at
  -- whatever time it is asked.
  pub claim_batch_exclusive :
      (now later i : ℕ) (db : Database) {a : DeliveryAttempt}
      → member i (map claimed_id (claim_batch scan now db).0) ≡ true
      → find_attempt i (claim_batch scan now db).1 ≡ some a
      → is_claimable later a ≡ false
  unfolding claim_batch
  claim_batch_exclusive now later i db {a} hit e =
      let rows = scan 50 (where_rows (is_claimable now) db.delivery_attempts) in
      claimed_row-not-claimable i now (map attempt_id rows) db (rw (map-load db rows) at hit) a
        later e

  -- A row that is not claimed is as it was.
  pub claim_batch_other :
      (now i : ℕ) (db : Database)
      → All (λ c. (i == c.attempt.id) ≡ false) (claim_batch scan now db).0
      → find_attempt i (claim_batch scan now db).1 ≡ find_attempt i db
  claim_batch_other now i db ne = elim (Option-cases (find_attempt i db)) [
    | inl gone ↦ ground (arith, (claim_batch_lem now i db).2)
    | inr (a, found) ↦ ground (
      arith,
      (claim_batch_lem now i db).2,
      find_attempt_id i db found,
      member_apart a.id (claim_batch scan now db).0 (rw (find_attempt_id i db found) ne),
    )
  ]

pub claim_batch-IsKeyed :
    (scan : ℕ → List DeliveryAttempt → List DeliveryAttempt) (now : ℕ) (db : Database)
    → IsKeyed db
    → IsKeyed (claim_batch scan now db).1
unfolding claim_batch
claim_batch-IsKeyed scan now db k = update-IsKeyed _ (claim_row now) db (λ x. refl) k
