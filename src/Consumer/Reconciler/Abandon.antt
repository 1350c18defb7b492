-- ===== src/Consumer/Reconciler/Abandon.antt =====
-- An event that the reconciler publishes round after round.
use mathlib.Core.Path.{subst}
use unith_task.Prelude.{
  ℕ, suc, ◌+◌, ◌≤◌, ◌<◌, ◌≡◌, ap, ◌∙◌, Bool, true, false, Option, some, List, [], ◌∷◌, ◌++◌, arith,
  leb, length, All, str_eq, if◌then◌else◌,
}
use unith_task.Config.{Settings}
use unith_task.Json.{Codec}
use unith_task.Db.{IdempotencyKey, Database, find_key}
use unith_task.Consumer.Reconciler.{
  Publish, published, Change, abandon, bump, changed_row, stale_rows, reconcile,
}
use unith_task.Consumer.Reconciler.Effect.{raises, counted, change_of, row_after, reconcile_effect}

-- What a round meets: the choice of the database, the answers of the broker, and the clock.
pub record RoundEnv : Type 0 where
  pub scan : ℕ → List IdempotencyKey → List IdempotencyKey
  pub publish : IdempotencyKey → Publish
  pub now : ℕ

module _ (s : Settings) (codec : Codec) where
  abbrev pub after_round : RoundEnv → Database → Database
  after_round r db = (reconcile s codec r.scan r.publish r.now db).1

  unfoldable pub after_rounds : List RoundEnv → Database → Database
  after_rounds [] db = db
  after_rounds (r ∷ rs) db = after_rounds rs (after_round r db)

  -- The round loads the row, no other one with its id, publishes its message, and no publication
  -- raises.
  pub record IsPublished (r : RoundEnv) (k : IdempotencyKey) (db : Database) : Type 0 where
    pub pre : List IdempotencyKey
    pub post : List IdempotencyKey
    pub loaded : stale_rows s codec r.scan r.now db ≡ pre ++ k ∷ post
    pub fine : All (λ x. raises (r.publish x) ≡ false) (pre ++ k ∷ post)
    pub before : All (λ x. str_eq k.message_id x.message_id ≡ false) pre
    pub behind : All (λ x. str_eq k.message_id x.message_id ≡ false) post
    pub sent : r.publish k ≡ published

  -- Each of the rounds does so with the row as the rounds before have left it.
  unfoldable pub ArePublished : List RoundEnv → IdempotencyKey → Database → Type 0
  ArePublished [] k db = Unit
  ArePublished (r ∷ rs) k db =
      IsPublished r k db
      × ArePublished rs (row_after (change_of s (r.publish k) k) k) (after_round r db)

  round_effect :
      (r : RoundEnv) (k : IdempotencyKey) (db : Database)
      → IsPublished r k db
      → find_key k.message_id db ≡ some k
      → find_key k.message_id (after_round r db) ≡ some (row_after (change_of s (r.publish k) k) k)
  round_effect r k db p found =
      reconcile_effect s codec r.publish r.scan r.now db p.pre k p.post p.loaded p.fine p.before
        p.behind found

  chosen : Bool → Publish → IdempotencyKey → Option Change
  chosen at_limit p k =
      if at_limit then some (abandon k.reconcile_count) else counted p k.reconcile_count

  bumped :
      (r : RoundEnv) (k : IdempotencyKey)
      → r.publish k ≡ published
      → k.reconcile_count < s.reconciler_max_attempts
      → row_after (change_of s (r.publish k) k) k ≡ changed_row (bump k.reconcile_count) k
  unfolding chosen
  bumped r k sent below =
      let at_limit : leb s.reconciler_max_attempts k.reconcile_count ≡ false = ground arith in
      ap (λ p. row_after (change_of s p k) k) sent
      ∙ ap (λ b. row_after (chosen b published k) k) at_limit

  given_up :
      (r : RoundEnv) (k : IdempotencyKey)
      → k.reconcile_count ≡ s.reconciler_max_attempts
      → row_after (change_of s (r.publish k) k) k
        ≡ changed_row
            (abandon s.reconciler_max_attempts)
            (record k { reconcile_count = s.reconciler_max_attempts })
  unfolding chosen
  given_up r k e =
      let at_limit : leb s.reconciler_max_attempts k.reconcile_count ≡ true = ground arith in
      ap (λ b. row_after (chosen b (r.publish k) k) k) at_limit
      ∙ ap (λ n. changed_row (abandon n) (record k { reconcile_count = n })) e

  -- An event whose message is published round after round, and which nothing else changes, is given
  -- up: with a count c up to the limit, it is failed behind limit - c + 1 rounds, with the limit as its
  -- count and an error text.
  pub after_rounds-abandoned :
      (rs : List RoundEnv) (k : IdempotencyKey) (db : Database)
      → find_key k.message_id db ≡ some k
      → k.reconcile_count ≤ s.reconciler_max_attempts
      → k.reconcile_count + length rs ≡ suc s.reconciler_max_attempts
      → ArePublished rs k db
      → find_key k.message_id (after_rounds rs db)
        ≡ some (
            changed_row
              (abandon s.reconciler_max_attempts)
              (record k { reconcile_count = s.reconciler_max_attempts }))
  unfolding after_rounds ArePublished
  after_rounds-abandoned [] k db found below e goes = absurd (omega arith)
  after_rounds-abandoned (r ∷ []) k db found below e (p, _) =
      round_effect r k db p found ∙ ap some (given_up r k (omega arith))
  after_rounds-abandoned (r ∷ next ∷ rs) k db found below e (p, goes) =
      let same = bumped r k p.sent (omega arith) in
      after_rounds-abandoned (next ∷ rs) (changed_row (bump k.reconcile_count) k) (after_round r db)
        (round_effect r k db p found ∙ ap some same) (omega arith) (omega arith)
        (subst (λ x. ArePublished (next ∷ rs) x (after_round r db)) same goes)
