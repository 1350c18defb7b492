-- ===== src/Consumer/Intake/Uniqueness.antt =====
-- The constraints of app/db/models.py: the primary keys, the foreign key of an attempt and
-- UNIQUE (message_id, subscriber_id). No intake asks the database for a row that they refuse.
use mathlib.Core.Path.{subst}
use unith_task.Prelude.{
  ℕ, suc, ◌+◌, ◌≤◌, ◌≡◌, refl, String, Bool, ◌&&◌, none, List, [], ◌∷◌, ◌++◌, arith, ◌==◌, str_eq,
  str_eq_iff, if◌then◌else◌, inl, inr, Option-cases, Bool-cases,
}
use unith_task.Db.{Subscriber, DeliveryAttempt, Database, is_live, is_subscriber, has_key, find_key}
use unith_task.Db.Table.{where_rows, find_row}
use unith_task.Consumer.Intake.{Consumer, IntakeEnv, Event, new_key, attempts_for, store_event}
use unith_task.Consumer.Intake.Stored.{IsMigrated, store_event_known, store_event_new}

-- The number of rows that meet a test.
abbrev pub count : {A : Type 0} → (A → Bool) → List A → ℕ
count p [] = 0
count p (x ∷ xs) = (if p x then 1 else 0) + count p xs

abbrev pub is_pair : String → ℕ → DeliveryAttempt → Bool
is_pair m sub a = str_eq a.message_id m && a.subscriber_id == sub

-- The tables meet the constraints.
pub record IsConsistent (db : Database) : Type 0 where
  pub subscriber_once : (i : ℕ) → count (is_subscriber i) db.subscribers ≤ 1
  pub key_once : (m : String) → count (has_key m) db.idempotency_keys ≤ 1
  pub pair_refers :
      (m : String) (i : ℕ)
      → count (is_pair m i) db.delivery_attempts ≤ count (has_key m) db.idempotency_keys

count-append :
    {A : Type 0} (p : A → Bool) (xs ys : List A) → count p (xs ++ ys) ≡ count p xs + count p ys
count-append p [] ys = omega arith
count-append p (x ∷ xs) ys = omega (arith, count-append p xs ys)

count-where_rows-le :
    {A : Type 0} (p q : A → Bool) (xs : List A) → count p (where_rows q xs) ≤ count p xs
unfolding where_rows
count-where_rows-le p q [] = omega arith
count-where_rows-le p q (x ∷ xs) = ground (arith, count-where_rows-le p q xs)

count-none : {A : Type 0} (p : A → Bool) (xs : List A) → find_row p xs ≡ none → count p xs ≡ 0
unfolding find_row
count-none p [] h = refl
count-none p (x ∷ xs) h = ground (arith, count-none p xs)

-- The new attempts are for the new message, one for each subscriber of the list.
count-attempts_for :
    (now : ℕ) (m : String) (ids : ℕ → ℕ) (n : ℕ) (subs : List Subscriber) (j : String) (i : ℕ)
    → count (is_pair j i) (attempts_for now m ids n subs)
      ≡ (if str_eq m j then count (is_subscriber i) subs else 0)
unfolding attempts_for
count-attempts_for now m ids n [] j i = ground arith
count-attempts_for now m ids n (sub ∷ subs) j i =
    ground (arith, count-attempts_for now m ids (suc n) subs j i)

key_absent :
    (m : String) (db : Database) → find_key m db ≡ none → count (has_key m) db.idempotency_keys ≡ 0
unfolding find_key
key_absent m db h = count-none (has_key m) db.idempotency_keys h

module _ (env : IntakeEnv) (e : Event) (db : Database) (new : find_key e.message_id db ≡ none)
    (v : IsConsistent db) where
  new_rows : List DeliveryAttempt
  new_rows = attempts_for env.now e.message_id env.new_ids 0 (where_rows is_live db.subscribers)

  key_once_new :
      (m : String) → count (has_key m) (db.idempotency_keys ++ new_key env.now e ∷ []) ≤ 1
  unfolding new_key
  key_once_new m = elim (Bool-cases (str_eq e.message_id m)) [
    | inl eq ↦
        let absent : count (has_key m) db.idempotency_keys ≡ 0 =
          subst (λ j. count (has_key j) db.idempotency_keys ≡ 0) ((str_eq_iff e.message_id m).0 eq)
            (key_absent e.message_id db new) in
        ground
          (arith, count-append (has_key m) db.idempotency_keys (new_key env.now e ∷ []), absent)
    | inr ne ↦
        ground (
          arith,
          count-append (has_key m) db.idempotency_keys (new_key env.now e ∷ []),
          v.key_once m,
        )
  ]

  new_pairs-le :
      (m : String) (i : ℕ) → count (is_pair m i) new_rows ≤ (if str_eq e.message_id m then 1 else 0)
  unfolding new_rows
  new_pairs-le m i = ground (
    arith,
    count-attempts_for env.now e.message_id env.new_ids 0 (where_rows is_live db.subscribers) m i,
    count-where_rows-le (is_subscriber i) is_live db.subscribers,
    v.subscriber_once i,
  )

  pair_refers_new :
      (m : String) (i : ℕ)
      → count (is_pair m i) (db.delivery_attempts ++ new_rows)
        ≤ count (has_key m) (db.idempotency_keys ++ new_key env.now e ∷ [])
  unfolding new_key
  pair_refers_new m i = ground (
    arith,
    count-append (has_key m) db.idempotency_keys (new_key env.now e ∷ []),
    count-append (is_pair m i) db.delivery_attempts new_rows,
    v.pair_refers m i,
    new_pairs-le m i,
  )

  stored-IsConsistent : IsConsistent (record db {
    idempotency_keys = db.idempotency_keys ++ new_key env.now e ∷ [];
    delivery_attempts = db.delivery_attempts ++ new_rows;
  })
  stored-IsConsistent = record {
    subscriber_once = v.subscriber_once;
    key_once = key_once_new;
    pair_refers = pair_refers_new;
  }

-- Every intake keeps the constraints: the ids of subscribers and events stay unique, and each pair of
-- a message and a subscriber has at most as many attempts as there are events with that id, so none
-- if the event is not stored, and else at most one.
pub store_event-IsConsistent :
    (env : IntakeEnv) (e : Event) (c : Consumer)
    → IsMigrated c.database
    → IsConsistent c.database
    → IsConsistent (store_event env e c).1.database
unfolding new_rows
store_event-IsConsistent env e c ready v = elim (Option-cases (find_key e.message_id c.database)) [
  | inl new ↦ rw (store_event_new env e c ready new) (stored-IsConsistent env e c.database new v)
  | inr (k, known) ↦ rw (store_event_known env e c ready known) v
]
