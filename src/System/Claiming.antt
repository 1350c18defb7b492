-- ===== src/System/Claiming.antt =====
-- The claim of a worker, beside the claims that are held.
use unith_task.Prelude.{
  ℕ, ◌≡◌, refl, ap, inl, inr, true, false, some, List, ◌++◌, map, arith, All, All-map, All-map_of,
  All-and, All-append, ◌==◌, Bool-cases,
}
use unith_task.Prelude.Apart.{AwayFrom, Apart, Apart-append, Apart-map, All-within}
use unith_task.Db.{DeliveryAttempt, Database, in_flight, find_attempt}
use unith_task.Db.Keys.{
  row_id, HasKeys, HasKeys-IsKeyed, IsSelection, Apart-update_rows, Apart-where_rows,
}
use unith_task.Db.Table.{where_rows, All-where_rows, All-where_rows_of}
use unith_task.Db.Lookup.{find_attempt-update}
use unith_task.Delivery.Lifecycle.{Stage, stage_of}
use unith_task.Delivery.Claim.{
  Claimed, is_claimable, member, claim_row, attempt_id, load, claim_batch,
}
use unith_task.Delivery.Worker.Batch.Claims.{claimed_id, All-member, claim_batch_other}
use unith_task.Delivery.Worker.Batch.Runs.{claim_avoids}
use unith_task.System.Tables.{IsHeld, IsHeld-same}

-- The tables of attempts with the claims on them: ids are primary keys, each held claim is of a row
-- in flight, and no two are of the same row.
pub record IsExclusive (db : Database) (held : List Claimed) : Type 0 where
  pub keys : HasKeys db
  pub rows : All (IsHeld db) held
  pub once : Apart claimed_id held

-- The row that a claim loads can be claimed, and its id finds it.
abbrev pub IsLoaded : ℕ → Database → DeliveryAttempt → Type 0
IsLoaded now db a = (find_attempt a.id db ≡ some a) × (is_claimable now a ≡ true)

in_flight-not-claimable :
    (now : ℕ) (a : DeliveryAttempt) (n : ℕ)
    → stage_of a ≡ (in_flight, n)
    → is_claimable now a ≡ false
in_flight-not-claimable now a n st =
    let fly : a.status ≡ in_flight = ap (λ (q : Stage). q.0) st in rw fly refl

module _ (scan : ℕ → List DeliveryAttempt → List DeliveryAttempt) (ok_scan : IsSelection scan)
    (now : ℕ) (db : Database) (keys : HasKeys db) where
  -- The rows of the claiming query.
  abbrev pub picked : List DeliveryAttempt
  picked = scan 50 (where_rows (is_claimable now) db.delivery_attempts)

  pub picked-IsLoaded : All (IsLoaded now db) picked
  picked-IsLoaded =
      let p = is_claimable now in
      let rows = db.delivery_attempts in
      All-within (IsLoaded now db) (where_rows p rows) picked
        (ok_scan.present 50 (where_rows p rows))
        (All-and (λ a. find_attempt a.id db ≡ some a) (λ a. p a ≡ true) (where_rows p rows)
          (All-where_rows_of (λ a. find_attempt a.id db ≡ some a) p rows (HasKeys-IsKeyed db keys))
          (All-where_rows p rows))

  -- Behind the claim the loaded rows are held.
  loaded-IsHeld :
      (a : DeliveryAttempt)
      → IsLoaded now db a
      → member a.id (map attempt_id picked) ≡ true
      → IsHeld (claim_batch scan now db).1 (load db a)
  unfolding claim_batch
  loaded-IsHeld a (found, hit) there = (
    claim_row now a,
    ground (
      arith,
      find_attempt-update a.id (λ x. member x.id (map attempt_id picked)) (claim_row now) db
          (λ x. refl),
      found,
      there,
    ),
    refl,
  )

  new-IsHeld : All (IsHeld (claim_batch scan now db).1) (claim_batch scan now db).0
  unfolding claim_batch
  new-IsHeld = All-map_of (IsHeld (claim_batch scan now db).1) (load db) picked (
      All-map (λ a. IsLoaded now db a × (member a.id (map attempt_id picked) ≡ true)) _ picked
        (λ a (h, there). loaded-IsHeld a h there)
        (All-and (IsLoaded now db) (λ a. member a.id (map attempt_id picked) ≡ true) picked
          picked-IsLoaded (All-member picked)))

  -- A loaded row is not one that was held before.
  old_apart :
      (held : List Claimed)
      → All (IsHeld db) held
      → All (λ c. AwayFrom claimed_id c held) (claim_batch scan now db).0
  unfolding claim_batch
  old_apart held h =
      All-map_of (λ c. AwayFrom claimed_id c held) (load db) picked
        (All-map (IsLoaded now db) _ picked
          (λ a (found, hit).
            All-map (IsHeld db) (λ c. (a.id == c.attempt.id) ≡ false) held
              (λ c (b, there, st). elim (Bool-cases (a.id == c.attempt.id)) [
                | inr ne ↦ ne
                | inl eq ↦ absurd (
                    ground (
                      arith,
                      there,
                      found,
                      in_flight-not-claimable now b c.attempt.attempt_count st,
                    ))
              ])
              h)
          picked-IsLoaded)

  old-IsHeld : (c : Claimed) → IsHeld db c → IsHeld (claim_batch scan now db).1 c
  old-IsHeld c (a, found, st) =
      IsHeld-same db _ c
        (claim_batch_other scan ok_scan.choice now c.attempt.id db (
          claim_avoids scan now c.attempt.id db ok_scan.choice (HasKeys-IsKeyed db keys) found
            (in_flight-not-claimable now a c.attempt.attempt_count st)))
        (a, found, st)

  claim-keys : HasKeys (claim_batch scan now db).1
  unfolding claim_batch
  claim-keys = Apart-update_rows _ (claim_row now) db.delivery_attempts (λ a. refl) keys

  claim-once : Apart claimed_id (claim_batch scan now db).0
  unfolding claim_batch
  claim-once =
      Apart-map claimed_id (load db) picked
        (ok_scan.once 50 _ (Apart-where_rows row_id (is_claimable now) db.delivery_attempts keys))

  pub claim-IsExclusive :
      (held : List Claimed)
      → IsExclusive db held
      → IsExclusive (claim_batch scan now db).1 ((claim_batch scan now db).0 ++ held)
  claim-IsExclusive held v = record {
    keys = claim-keys;
    rows =
        All-append (IsHeld (claim_batch scan now db).1) (claim_batch scan now db).0 held new-IsHeld
          (All-map (IsHeld db) _ held old-IsHeld v.rows);
    once =
        Apart-append claimed_id (claim_batch scan now db).0 held claim-once v.once
          (old_apart held v.rows);
  }
