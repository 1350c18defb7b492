-- ===== src/Consumer/Reconciler/Effect.antt =====
-- What a round writes to the row of an event that it loaded.
use unith_task.Prelude.{
  ℕ, ◌≡◌, refl, ap, ◌∙◌, String, Bool, true, false, Option, none, some, List, [], ◌∷◌, ◌++◌, arith,
  leb, All, str_eq, str_eq_refl, if◌then◌else◌, inl, inr, Bool-cases,
}
use unith_task.Prelude.Result.{ok}
use unith_task.Config.{Settings}
use unith_task.Json.{Codec}
use unith_task.Db.{IdempotencyKey, Database, has_key, find_key}
use unith_task.Db.Lookup.{find_key-update_id}
use unith_task.Consumer.Handler.{update_keys}
use unith_task.Consumer.Reconciler.{
  Publish, published, publish_timeout, publish_error, Change, abandon, bump, changed_row, Round,
  publish_row, stale_rows, reconcile_rows, commit_changes, commit_round, reconcile,
}

abbrev pub raises : Publish → Bool
raises published = false
raises publish_timeout = false
raises (publish_error exc) = true

abbrev pub counted : Publish → ℕ → Option Change
counted published n = some (bump n)
counted publish_timeout n = none
counted (publish_error exc) n = none

-- The change of a loaded row: given up at the limit, counted once more if its message was published,
-- and none if the publication timed out.
abbrev pub change_of : Settings → Publish → IdempotencyKey → Option Change
change_of s p k =
    if leb s.reconciler_max_attempts k.reconcile_count
    then some (abandon k.reconcile_count)
    else counted p k.reconcile_count

abbrev pub row_after : Option Change → IdempotencyKey → IdempotencyKey
row_after none k = k
row_after (some ch) k = changed_row ch k

abbrev front : String → Option Change → List (String × Change)
front m none = []
front m (some ch) = (m, ch) ∷ []

module _ (s : Settings) (codec : Codec) where
  pub commit_one :
      (m : String) (ch : Change) (db : Database) {k : IdempotencyKey}
      → find_key m db ≡ some k
      → find_key m (commit_changes s codec ((m, ch) ∷ []) db) ≡ some (changed_row ch k)
  unfolding commit_changes
  commit_one m (abandon n) db found =
      ground (
        arith,
        find_key-update_id m m (changed_row (abandon n)) db (λ x. refl),
        str_eq_refl m,
        found,
      )
  commit_one m (bump n) db found =
      ground
        (arith, find_key-update_id m m (changed_row (bump n)) db (λ x. refl), str_eq_refl m, found)

  pub commit_apart :
      (m j : String) (ch : Change) (db : Database)
      → str_eq m j ≡ false
      → find_key m (commit_changes s codec ((j, ch) ∷ []) db) ≡ find_key m db
  unfolding commit_changes
  commit_apart m j (abandon n) db ne =
      ground (arith, find_key-update_id m j (changed_row (abandon n)) db (λ x. refl))
  commit_apart m j (bump n) db ne =
      ground (arith, find_key-update_id m j (changed_row (bump n)) db (λ x. refl))

  commit_changes-append :
      (xs ys : List (String × Change)) (db : Database)
      → commit_changes s codec (xs ++ ys) db
        ≡ commit_changes s codec ys (commit_changes s codec xs db)
  unfolding commit_changes
  commit_changes-append [] ys db = refl
  commit_changes-append ((m, ch) ∷ xs) ys db =
      commit_changes-append xs ys (update_keys (has_key m) (changed_row ch) db)

  front_own :
      (o : Option Change) (m : String) (db : Database) {k : IdempotencyKey}
      → find_key m db ≡ some k
      → find_key m (commit_changes s codec (front m o) db) ≡ some (row_after o k)
  unfolding commit_changes
  front_own none m db found = found
  front_own (some ch) m db found = commit_one m ch db found

  front_apart :
      (o : Option Change) (m j : String) (db : Database)
      → str_eq m j ≡ false
      → find_key m (commit_changes s codec (front j o) db) ≡ find_key m db
  unfolding commit_changes
  front_apart none m j db ne = refl
  front_apart (some ch) m j db ne = commit_apart m j ch db ne

  module _ (publish : IdempotencyKey → Publish) where
    fronts : List IdempotencyKey → List (String × Change)
    fronts [] = []
    fronts (k ∷ ks) = front k.message_id (change_of s (publish k) k) ++ fronts ks

    publish_row-changes :
        (k : IdempotencyKey) (p : Publish) (rest : Round) {cs : List (String × Change)}
        → raises p ≡ false
        → rest.changes ≡ ok cs
        → (publish_row s codec k p rest).changes
          ≡ ok (front k.message_id (counted p k.reconcile_count) ++ cs)
    unfolding publish_row
    publish_row-changes k published rest fine e = rw e refl
    publish_row-changes k publish_timeout rest fine e = e
    publish_row-changes k (publish_error exc) rest fine e = absurd (cc)

    -- Without an exception the round commits the changes of all its rows.
    reconcile_rows-changes :
        (ks : List IdempotencyKey)
        → All (λ k. raises (publish k) ≡ false) ks
        → (reconcile_rows s codec publish ks).changes ≡ ok (fronts ks)
    unfolding reconcile_rows fronts
    reconcile_rows-changes [] h = refl
    reconcile_rows-changes (k ∷ ks) h =
        let ih = reconcile_rows-changes ks h.1 in
        elim (Bool-cases (leb s.reconciler_max_attempts k.reconcile_count)) [
          | inl full ↦ rw (full, reconcile_rows) (rw ih refl)
          | inr room ↦
              rw (room, reconcile_rows)
                (publish_row-changes k (publish k) (reconcile_rows s codec publish ks) h.0 ih)
        ]

    fronts_apart :
        (m : String) (ks : List IdempotencyKey) (db : Database)
        → All (λ k. str_eq m k.message_id ≡ false) ks
        → find_key m (commit_changes s codec (fronts ks) db) ≡ find_key m db
    unfolding commit_changes fronts
    fronts_apart m [] db h = refl
    fronts_apart m (k ∷ ks) db h =
        let o = change_of s (publish k) k in
        ap (find_key m) (commit_changes-append (front k.message_id o) (fronts ks) db)
        ∙ fronts_apart m ks (commit_changes s codec (front k.message_id o) db) h.1
        ∙ front_apart o m k.message_id db h.0

    fronts_own :
        (pre : List IdempotencyKey) (k : IdempotencyKey) (post : List IdempotencyKey)
        (db : Database)
        → All (λ x. str_eq k.message_id x.message_id ≡ false) pre
        → All (λ x. str_eq k.message_id x.message_id ≡ false) post
        → find_key k.message_id db ≡ some k
        → find_key k.message_id (commit_changes s codec (fronts (pre ++ k ∷ post)) db)
          ≡ some (row_after (change_of s (publish k) k) k)
    unfolding fronts
    fronts_own [] k post db before behind found =
        let o = change_of s (publish k) k in
        ap (find_key k.message_id) (commit_changes-append (front k.message_id o) (fronts post) db)
        ∙ fronts_apart k.message_id post (commit_changes s codec (front k.message_id o) db) behind
        ∙ front_own o k.message_id db found
    fronts_own (x ∷ pre) k post db before behind found =
        let o = change_of s (publish x) x in
        ap (find_key k.message_id)
          (commit_changes-append (front x.message_id o) (fronts (pre ++ k ∷ post)) db)
        ∙ fronts_own pre k post (commit_changes s codec (front x.message_id o) db) before.1 behind
            (front_apart o k.message_id x.message_id db before.0 ∙ found)

    -- In a round in which no publication raises, the row of each loaded event, if its id is unique
    -- among them, is given up (failed, with an error text) if its count has reached the limit;
    -- otherwise its count is one higher if its message was published, and it is as it was if the
    -- publication timed out.
    pub reconcile_effect :
        (scan : ℕ → List IdempotencyKey → List IdempotencyKey) (now : ℕ) (db : Database)
        (pre : List IdempotencyKey) (k : IdempotencyKey) (post : List IdempotencyKey)
        → stale_rows s codec scan now db ≡ pre ++ k ∷ post
        → All (λ x. raises (publish x) ≡ false) (pre ++ k ∷ post)
        → All (λ x. str_eq k.message_id x.message_id ≡ false) pre
        → All (λ x. str_eq k.message_id x.message_id ≡ false) post
        → find_key k.message_id db ≡ some k
        → find_key k.message_id (reconcile s codec scan publish now db).1
          ≡ some (row_after (change_of s (publish k) k) k)
    unfolding reconcile
    reconcile_effect scan now db pre k post loaded fine before behind found =
        ap
          (λ rows.
            find_key k.message_id
              (commit_round s codec (reconcile_rows s codec publish rows).changes db))
          loaded
        ∙ ap (λ r. find_key k.message_id (commit_round s codec r db))
            (reconcile_rows-changes (pre ++ k ∷ post) fine)
        ∙ fronts_own pre k post db before behind found
