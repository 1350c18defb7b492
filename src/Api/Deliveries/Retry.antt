-- ===== src/Api/Deliveries/Retry.antt =====
-- POST /deliveries/{id}/retry.
use unith_task.Prelude.{
  ℕ, ◌≤◌, ◌≡◌, refl, sym, ◌∙◌, ap, inl, inr, Bool, true, false, Option, none, some, arith, ◌==◌,
  if◌then◌else◌, Option-cases, Bool-cases,
}
use unith_task.Prelude.Result.{Result, ok, raised, Rolls}
use unith_task.Db.{DeliveryAttempt, Database, find_attempt}
use unith_task.Db.Lookup.{find_attempt-update_id}
use unith_task.Delivery.Claim.{is_claimable}
use unith_task.Schemas.{to_delivery_response}
use unith_task.Api.Deliveries.{is_retryable, retried_row, retry_delivery}

-- A dead or failed attempt becomes pending without an error text, and can be claimed from then on.
-- It keeps its id and its attempt count; no other attempt changes.
pub retry_delivery_ok :
    (id i now updated later : ℕ) (db : Database) {a : DeliveryAttempt}
    → find_attempt id db ≡ some a
    → is_retryable a.status ≡ true
    → now ≤ later
    → let (r, db') = retry_delivery id now updated db in
      let b = retried_row now updated a in
      (r ≡ ok (to_delivery_response b))
      × (find_attempt i db' ≡ (if i == id then some b else find_attempt i db))
      × (is_claimable later b ≡ true)
      × (b.attempt_count ≡ a.attempt_count)
unfolding retry_delivery
retry_delivery_ok id i now updated later db {a} found yes_ le =
    rw (found, retry_delivery, yes_)
      (
        refl,
        ground (arith, find_attempt-update_id i id (retried_row now updated) db (λ x. refl), found),
        ground arith,
        refl,
      )

-- There is such an attempt, dead or failed.
abbrev pub can_retry : Option DeliveryAttempt → Bool
can_retry none = false
can_retry (some a) = is_retryable a.status

abbrev pub is_raised {ℓ} : {A : Type ℓ} → Result A → Bool
is_raised (ok a) = false
is_raised (raised e) = true

-- When there is no such attempt, or it is neither dead nor failed, the request ends in an error and
-- changes nothing.
pub retry_delivery_refused :
    (id now updated : ℕ) (db : Database)
    → can_retry (find_attempt id db) ≡ false
    → (is_raised (retry_delivery id now updated db).0 ≡ true)
      × ((retry_delivery id now updated db).1 ≡ db)
unfolding retry_delivery
retry_delivery_refused id now updated db h = elim (Option-cases (find_attempt id db)) [
  | inl gone ↦ rw (gone, retry_delivery) (refl, refl)
  | inr (a, found) ↦
      let no : is_retryable a.status ≡ false = sym (ap can_retry found) ∙ h in
      rw (found, retry_delivery, no) (refl, refl)
]

pub retry_delivery-Rolls :
    (id now updated : ℕ) (db : Database) → Rolls db (retry_delivery id now updated db)
unfolding retry_delivery
retry_delivery-Rolls id now updated db = elim (Option-cases (find_attempt id db)) [
  | inl gone ↦ rw (gone, retry_delivery) refl
  | inr (a, found) ↦ elim (Bool-cases (is_retryable a.status)) [
    | inl hit ↦ rw (found, retry_delivery, hit) tt
    | inr miss ↦ rw (found, retry_delivery, miss) refl
  ]
]

pub retry_delivery-subscribers :
    (id now updated : ℕ) (db : Database)
    → (retry_delivery id now updated db).1.subscribers ≡ db.subscribers
unfolding retry_delivery
retry_delivery-subscribers id now updated db = elim (Option-cases (find_attempt id db)) [
  | inl gone ↦ rw (gone, retry_delivery)
  | inr (a, found) ↦ elim (Bool-cases (is_retryable a.status)) [
    | inl hit ↦ rw (found, retry_delivery, hit)
    | inr miss ↦ rw (found, retry_delivery, miss)
  ]
]
