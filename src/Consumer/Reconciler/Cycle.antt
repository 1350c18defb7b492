-- ===== src/Consumer/Reconciler/Cycle.antt =====
-- One round of the reconciler.
use unith_task.Prelude.{
  ℕ, ◌-◌, ◌≤◌, ◌≡◌, refl, ◌∙◌, ap, String, Bool, true, false, not, some, List, [], ◌∷◌, arith,
  length, str_eq, str_eq_iff, All, All-map, All-and, inl, inr, Bool-cases,
}
use unith_task.Prelude.Result.{Result, ok, raised}
use unith_task.Config.{Settings, minutes}
use unith_task.Json.{Codec}
use unith_task.Db.{IdempotencyKey, Database, has_key, find_key}
use unith_task.Db.Table.{where_rows, IsScan, All-update_rows, All-where_rows, All-where_rows_of}
use unith_task.Db.Lookup.{find_key-update_id}
use unith_task.Consumer.Reconciler.{
  Publish, Change, abandon, bump, changed_row, is_stuck, stale_rows, reconcile_rows, commit_changes,
  commit_round, reconcile,
}
use unith_task.Consumer.Reconciler.Changes.{
  WithinLimit, AllChanges, reconcile_rows-All, length-reconcile_rows,
}

All-rows : (ks : List IdempotencyKey) → All (λ k. Unit {0}) ks
All-rows [] = tt
All-rows (k ∷ ks) = (tt, All-rows ks)

-- The primary key of `idempotency_keys`: each row is the one that its id finds.
abbrev pub KeysAreKeyed : Database → Type 0
KeysAreKeyed db = All (λ k. find_key k.message_id db ≡ some k) db.idempotency_keys

apart_by_stuck :
    (m : String) (db : Database) (p : IdempotencyKey → Bool) {k x : IdempotencyKey}
    → find_key x.message_id db ≡ some x
    → find_key m db ≡ some k
    → p x ≡ true
    → p k ≡ false
    → not (str_eq m x.message_id) ≡ true
apart_by_stuck m db p {k} {x} found e hit miss = elim (Bool-cases (str_eq m x.message_id)) [
  | inl eq ↦ absurd (cc (ap (λ j. find_key j db) ((str_eq_iff m x.message_id).0 eq)))
  | inr ne ↦ rw ne
]

module _ (s : Settings) (codec : Codec) where
  commit_changes-other :
      (m : String) (cs : List (String × Change)) (db : Database)
      → All (λ c. str_eq m c.0 ≡ false) cs
      → find_key m (commit_changes s codec cs db) ≡ find_key m db
  unfolding commit_changes
  commit_changes-other m [] db h = refl
  commit_changes-other m ((j, abandon n) ∷ cs) db h =
      commit_changes-other m cs _ h.1
      ∙ ground (arith, find_key-update_id m j (changed_row (abandon n)) db (λ x. refl), h.0)
  commit_changes-other m ((j, bump n) ∷ cs) db h =
      commit_changes-other m cs _ h.1
      ∙ ground (arith, find_key-update_id m j (changed_row (bump n)) db (λ x. refl), h.0)

  commit_changes-All :
      (cs : List (String × Change)) (db : Database)
      → All (WithinLimit s) cs
      → All (λ k. k.reconcile_count ≤ s.reconciler_max_attempts) db.idempotency_keys
      → All
          (λ k. k.reconcile_count ≤ s.reconciler_max_attempts)
          (commit_changes s codec cs db).idempotency_keys
  unfolding commit_changes
  commit_changes-All [] db w h = h
  commit_changes-All ((j, abandon n) ∷ cs) db w h = commit_changes-All cs _ w.1 (
      All-update_rows (λ k. k.reconcile_count ≤ s.reconciler_max_attempts) (has_key j)
        (changed_row (abandon n)) db.idempotency_keys (λ x _ b. b) h)
  commit_changes-All ((j, bump n) ∷ cs) db w h = commit_changes-All cs _ w.1 (
      All-update_rows (λ k. k.reconcile_count ≤ s.reconciler_max_attempts) (has_key j)
        (changed_row (bump n)) db.idempotency_keys (λ x _ b. w.0) h)

  commit_round-other :
      (m : String) (r : Result (List (String × Change))) (db : Database)
      → AllChanges (λ c. str_eq m c.0 ≡ false) r
      → find_key m (commit_round s codec r db) ≡ find_key m db
  commit_round-other m (raised e) db h = refl
  commit_round-other m (ok cs) db h = commit_changes-other m cs db h

  commit_round-All :
      (r : Result (List (String × Change))) (db : Database)
      → AllChanges (WithinLimit s) r
      → All (λ k. k.reconcile_count ≤ s.reconciler_max_attempts) db.idempotency_keys
      → All
          (λ k. k.reconcile_count ≤ s.reconciler_max_attempts)
          (commit_round s codec r db).idempotency_keys
  commit_round-All (raised e) db w h = h
  commit_round-All (ok cs) db w h = commit_changes-All cs db w h

  module _ (scan : ℕ → List IdempotencyKey → List IdempotencyKey)
      (publish : IdempotencyKey → Publish) (now : ℕ) (db : Database) where
    -- A round publishes at most as many messages as the batch size allows.
    pub length-reconcile :
        IsScan scan → length (reconcile s codec scan publish now db).0 ≤ s.reconciler_batch_size
    unfolding reconcile stale_rows
    length-reconcile ok_scan =
        let rows = stale_rows s codec scan now db in
        omega (
          arith,
          length-reconcile_rows s codec publish rows,
          ok_scan.limited s.reconciler_batch_size _,
        )

    -- If no row's count of cycles is over the limit, none is behind a round, whatever is published
    -- and whatever fails.
    pub reconcile_count-le :
        All (λ k. k.reconcile_count ≤ s.reconciler_max_attempts) db.idempotency_keys
        → All
            (λ k. k.reconcile_count ≤ s.reconciler_max_attempts)
            (reconcile s codec scan publish now db).1.idempotency_keys
    unfolding reconcile
    reconcile_count-le h =
        let rows = stale_rows s codec scan now db in
        commit_round-All (reconcile_rows s codec publish rows).changes db
          (reconcile_rows-All s codec publish (WithinLimit s) (λ k. Unit {0}) (λ k _ full. full)
            (λ k _ room. room) rows (All-rows rows))
          h

    -- In a table with unique ids, a round leaves every row as it is that is not received, or not
    -- older than the threshold.
    pub reconcile_other :
        (m : String) {k : IdempotencyKey}
        → IsScan scan
        → KeysAreKeyed db
        → find_key m db ≡ some k
        → is_stuck (now - minutes s.reconciler_stale_minutes) k ≡ false
        → find_key m (reconcile s codec scan publish now db).1 ≡ some k
    unfolding reconcile stale_rows
    reconcile_other m {k} ok_scan keyed found idle =
        let p = is_stuck (now - minutes s.reconciler_stale_minutes) in
        let rows = where_rows p db.idempotency_keys in
        commit_round-other m
          (reconcile_rows s codec publish (stale_rows s codec scan now db)).changes db
          (reconcile_rows-All s codec publish (λ c. str_eq m c.0 ≡ false)
            (λ x. not (str_eq m x.message_id) ≡ true) (λ x ne _. ground arith)
            (λ x ne _. ground arith) (scan s.reconciler_batch_size rows)
            (ok_scan.selected (λ x. not (str_eq m x.message_id)) s.reconciler_batch_size rows
              (All-map (λ x. (find_key x.message_id db ≡ some x) × (p x ≡ true)) _ rows
                (λ x (there, hit). apart_by_stuck m db p there found hit idle)
                (All-and (λ x. find_key x.message_id db ≡ some x) (λ x. p x ≡ true) rows
                  (All-where_rows_of (λ x. find_key x.message_id db ≡ some x) p db.idempotency_keys
                    keyed)
                  (All-where_rows p db.idempotency_keys)))))
        ∙ found
