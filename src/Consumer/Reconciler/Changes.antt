-- ===== src/Consumer/Reconciler/Changes.antt =====
-- The changes that one round of the reconciler collects.
use unith_task.Prelude.{
  suc, ◌≤◌, ◌<◌, String, List, [], ◌∷◌, arith, leb, length, All, inl, inr, Bool-cases,
}
use unith_task.Prelude.Result.{Result, ok, raised}
use unith_task.Config.{Settings}
use unith_task.Json.{Codec}
use unith_task.Db.{IdempotencyKey}
use unith_task.Consumer.Reconciler.{
  Publish, published, publish_timeout, publish_error, Change, abandon, bump, Round, publish_row,
  reconcile_rows,
}

-- A change counts a row that is below the limit, or gives up one that is not.
abbrev pub WithinLimit : Settings → String × Change → Type 0
WithinLimit s (m, abandon n) = s.reconciler_max_attempts ≤ n
WithinLimit s (m, bump n) = n < s.reconciler_max_attempts

abbrev pub AllChanges : (String × Change → Type 0) → Result (List (String × Change)) → Type 0
AllChanges P (raised e) = Unit
AllChanges P (ok cs) = All P cs

module _ (s : Settings) (codec : Codec) (publish : IdempotencyKey → Publish) where
  with_change-All :
      (P : String × Change → Type 0) (m : String) (ch : Change)
      (r : Result (List (String × Change)))
      → P (m, ch)
      → AllChanges P r
      → AllChanges P (elim r [ ok cs ↦ ok ((m, ch) ∷ cs) | raised e ↦ raised e ])
  with_change-All P m ch (ok cs) p h = (p, h)
  with_change-All P m ch (raised e) p h = tt

  publish_row-All :
      (P : String × Change → Type 0) (k : IdempotencyKey) (p : Publish) (rest : Round)
      → P (k.message_id, bump k.reconcile_count)
      → AllChanges P rest.changes
      → AllChanges P (publish_row s codec k p rest).changes
  unfolding publish_row
  publish_row-All P k published rest one h =
      with_change-All P k.message_id (bump k.reconcile_count) rest.changes one h
  publish_row-All P k publish_timeout rest one h = h
  publish_row-All P k (publish_error exc) rest one h = tt

  -- Each change comes from a loaded row, by the test on its count.
  pub reconcile_rows-All :
      (P : String × Change → Type 0) (Q : IdempotencyKey → Type 0)
      → ((k : IdempotencyKey)
          → Q k
          → s.reconciler_max_attempts ≤ k.reconcile_count
          → P (k.message_id, abandon k.reconcile_count))
      → ((k : IdempotencyKey)
          → Q k
          → k.reconcile_count < s.reconciler_max_attempts
          → P (k.message_id, bump k.reconcile_count))
      → (ks : List IdempotencyKey) → All Q ks
      → AllChanges P (reconcile_rows s codec publish ks).changes
  unfolding reconcile_rows
  reconcile_rows-All P Q up down [] q = tt
  reconcile_rows-All P Q up down (k ∷ ks) q =
      let ih = reconcile_rows-All P Q up down ks q.1 in
      elim (Bool-cases (leb s.reconciler_max_attempts k.reconcile_count)) [
        | inl full ↦
            rw (full, reconcile_rows)
              (with_change-All P k.message_id (abandon k.reconcile_count) _
                (up k q.0 (ground arith)) ih)
        | inr room ↦
            rw (room, reconcile_rows)
              (publish_row-All P k (publish k) _ (down k q.0 (ground arith)) ih)
      ]

  length-publish_row :
      (k : IdempotencyKey) (p : Publish) (rest : Round)
      → length (publish_row s codec k p rest).sent ≤ suc (length rest.sent)
  unfolding publish_row
  length-publish_row k published rest = omega arith
  length-publish_row k publish_timeout rest = omega arith
  length-publish_row k (publish_error exc) rest = omega arith

  pub length-reconcile_rows :
      (ks : List IdempotencyKey) → length (reconcile_rows s codec publish ks).sent ≤ length ks
  unfolding reconcile_rows
  length-reconcile_rows [] = omega arith
  length-reconcile_rows (k ∷ ks) = ground (
    arith,
    length-reconcile_rows ks,
    length-publish_row k (publish k) (reconcile_rows s codec publish ks),
  )
