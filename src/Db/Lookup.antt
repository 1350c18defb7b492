-- ===== src/Db/Lookup.antt =====
-- Lookups by primary key after an UPDATE or an INSERT on the same table.
use mathlib.Core.Option
use unith_task.Prelude.{
  ℕ, ◌≡◌, String, Bool, some, arith, ◌==◌, str_eq, str_eq_iff, if◌then◌else◌, inl, inr, Bool-cases,
  Option-cases, All,
}
use unith_task.Db.{
  IdempotencyKey, DeliveryAttempt, Database, has_key, has_id, find_key, find_attempt,
}
use unith_task.Db.Table.{update_rows, find_row-update_rows, find_row_sound, All-update_rows_to}

-- The row of an id behind an update that keeps ids.
pub find_attempt-update :
    (i : ℕ) (p : DeliveryAttempt → Bool) (f : DeliveryAttempt → DeliveryAttempt) (db : Database)
    → ((x : DeliveryAttempt) → (f x).id ≡ x.id)
    → find_attempt i (record db { delivery_attempts = update_rows p f db.delivery_attempts })
      ≡ Option.map (λ x. if p x then f x else x) (find_attempt i db)
unfolding find_attempt
find_attempt-update i p f db k =
    find_row-update_rows (has_id i) p f db.delivery_attempts (λ x. rw (k x))

pub find_attempt_id :
    (i : ℕ) (db : Database) {a : DeliveryAttempt} → find_attempt i db ≡ some a → a.id ≡ i
unfolding find_attempt
find_attempt_id i db {a} e = ground (arith, find_row_sound (has_id i) db.delivery_attempts e)

-- An update of one id changes that row and no other.
pub find_attempt-update_id :
    (i j : ℕ) (f : DeliveryAttempt → DeliveryAttempt) (db : Database)
    → ((x : DeliveryAttempt) → (f x).id ≡ x.id)
    → find_attempt i
        (record db { delivery_attempts = update_rows (has_id j) f db.delivery_attempts })
      ≡ (if i == j then Option.map f (find_attempt i db) else find_attempt i db)
find_attempt-update_id i j f db k = elim (Option-cases (find_attempt i db)) [
  | inl e ↦ ground (arith, find_attempt-update i (has_id j) f db k)
  | inr (a, e) ↦ ground (arith, find_attempt-update i (has_id j) f db k, find_attempt_id i db e)
]

pub find_key-update :
    (m : String) (p : IdempotencyKey → Bool) (f : IdempotencyKey → IdempotencyKey) (db : Database)
    → ((x : IdempotencyKey) → (f x).message_id ≡ x.message_id)
    → find_key m (record db { idempotency_keys = update_rows p f db.idempotency_keys })
      ≡ Option.map (λ x. if p x then f x else x) (find_key m db)
unfolding find_key
find_key-update m p f db k =
    find_row-update_rows (has_key m) p f db.idempotency_keys (λ x. rw (k x))

pub find_key_id :
    (m : String) (db : Database) {k : IdempotencyKey} → find_key m db ≡ some k → k.message_id ≡ m
unfolding find_key
find_key_id m db {k} e =
    (str_eq_iff k.message_id m).0 (find_row_sound (has_key m) db.idempotency_keys e)

pub find_key-update_id :
    (m j : String) (f : IdempotencyKey → IdempotencyKey) (db : Database)
    → ((x : IdempotencyKey) → (f x).message_id ≡ x.message_id)
    → find_key m (record db { idempotency_keys = update_rows (has_key j) f db.idempotency_keys })
      ≡ (if str_eq m j then Option.map f (find_key m db) else find_key m db)
find_key-update_id m j f db k = elim (Option-cases (find_key m db)) [
  | inl e ↦ ground (arith, find_key-update m (has_key j) f db k)
  | inr (a, e) ↦ ground (arith, find_key-update m (has_key j) f db k, find_key_id m db e)
]

-- The primary key of `delivery_attempts`: each row is the one that its id finds.
abbrev pub IsKeyed : Database → Type 0
IsKeyed db = All (λ a. find_attempt a.id db ≡ some a) db.delivery_attempts

pub update-IsKeyed :
    (p : DeliveryAttempt → Bool) (f : DeliveryAttempt → DeliveryAttempt) (db : Database)
    → ((x : DeliveryAttempt) → (f x).id ≡ x.id)
    → IsKeyed db
    → IsKeyed (record db { delivery_attempts = update_rows p f db.delivery_attempts })
update-IsKeyed p f db k h =
    All-update_rows_to (λ a. find_attempt a.id db ≡ some a) _ p f db.delivery_attempts
      (λ x e. elim (Bool-cases (p x)) [
        | inl hit ↦ ground (arith, k x, find_attempt-update x.id p f db k)
        | inr miss ↦ ground (arith, find_attempt-update x.id p f db k)
      ])
      h
