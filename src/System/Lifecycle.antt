-- ===== src/System/Lifecycle.antt =====
-- What the transactions do to the life of an attempt.
use mathlib.Core.Option
use mathlib.Core.Path.{subst}
use unith_task.Prelude.{
  ℕ, ◌-◌, ◌≡◌, refl, sym, ◌∙◌, ap, inl, inr, ◌⊎◌, true, false, ◌||◌, Option, some, arith, ◌==◌,
  ==_iff, Bool-cases, Option-cases,
}
use unith_task.Config.{Settings, minutes}
use unith_task.Db.{
  DeliveryStatus, pending, in_flight, delivered, dead, DeliveryAttempt, Database, same_status,
  has_id, find_attempt,
}
use unith_task.Db.Table.{find_row, find_row-append, find_row-All}
use unith_task.Db.Lookup.{find_attempt-update, find_attempt-update_id}
use unith_task.Delivery.Lifecycle.{
  Stage, stage_of, stage, Moves, claimed, reclaimed, succeeded, rejected, exhausted, orphaned,
  recovered, revived, retried, Progress, created, moved,
}
use unith_task.Delivery.Claim.{is_stale, reset_row, reset_stale_in_flight}
use unith_task.Api.Deliveries.{is_retryable, retried_row, retry_delivery}
use unith_task.Consumer.Service.Attempts.{Appends}
use unith_task.System.Tables.{find_attempt-Appends, retry_cases}

-- What one transaction does to the stage of an id.
abbrev pub Passes : ℕ → ℕ → Database → Database → Type 0
Passes limit i db db' = (stage i db' ≡ stage i db) ⊎ Progress limit (stage i db) (stage i db')

pub Passes-same :
    (limit i : ℕ) (db db' : Database)
    → find_attempt i db' ≡ find_attempt i db
    → Passes limit i db db'
Passes-same limit i db db' e = inl (ap (Option.map stage_of) e)

pub Passes-moved :
    (limit i : ℕ) (db db' : Database) (a b : DeliveryAttempt)
    → find_attempt i db ≡ some a
    → find_attempt i db' ≡ some b
    → Moves limit (stage_of a) (stage_of b)
    → Passes limit i db db'
Passes-moved limit i db db' a b found found' m = inr (rw (found, found') (moved m))

module _ (limit : ℕ) where
  pub claim-Moves :
      (st : DeliveryStatus) (n : ℕ)
      → (same_status st pending || same_status st DeliveryStatus.failed) ≡ true
      → Moves limit (st, n) (in_flight, n)
  claim-Moves pending n h = claimed n
  claim-Moves in_flight n h = absurd cc
  claim-Moves delivered n h = absurd cc
  claim-Moves DeliveryStatus.failed n h = reclaimed n
  claim-Moves dead n h = absurd cc

  reset-Moves :
      (st : DeliveryStatus) (n : ℕ)
      → same_status st in_flight ≡ true
      → Moves limit (st, n) (DeliveryStatus.failed, n)
  reset-Moves pending n h = absurd cc
  reset-Moves in_flight n h = recovered n
  reset-Moves delivered n h = absurd cc
  reset-Moves DeliveryStatus.failed n h = absurd cc
  reset-Moves dead n h = absurd cc

  retry-Moves :
      (st : DeliveryStatus) (n : ℕ) → is_retryable st ≡ true → Moves limit (st, n) (pending, n)
  retry-Moves pending n h = absurd cc
  retry-Moves in_flight n h = absurd cc
  retry-Moves delivered n h = absurd cc
  retry-Moves DeliveryStatus.failed n h = retried n
  retry-Moves dead n h = revived n

  -- No move leaves `delivered`.
  Moves-delivered : {p q : Stage} → Moves limit p q → same_status p.0 delivered ≡ false
  Moves-delivered (claimed n) = refl
  Moves-delivered (reclaimed n) = refl
  Moves-delivered (succeeded n) = refl
  Moves-delivered (rejected n h) = refl
  Moves-delivered (exhausted n h) = refl
  Moves-delivered (orphaned n) = refl
  Moves-delivered (recovered n) = refl
  Moves-delivered (revived n) = refl
  Moves-delivered (retried n) = refl

  pub Progress-delivered :
      {p q : Option Stage} (n : ℕ) → Progress limit p q → p ≡ some (delivered, n) → ⊥
  Progress-delivered n created e = absurd cc
  Progress-delivered n (moved {p} m) e =
      let away = Moves-delivered m in
      let here : p ≡ (delivered, n) = cc e in
      absurd (cc (ap (λ (st : Stage). same_status st.0 delivered) here, away))

  pub append-Passes :
      (i : ℕ) (db db' : Database)
      → Appends db.delivery_attempts db'.delivery_attempts
      → Passes limit i db db'
  unfolding find_attempt
  append-Passes i db db' h = elim (Option-cases (find_attempt i db)) [
    | inr (a, found) ↦
        Passes-same limit i db db' (find_attempt-Appends i db db' h found ∙ sym found)
    | inl gone ↦
        let there : find_attempt i db' ≡ find_row (has_id i) h.added =
          rw h.extended
            (rw (find_row-append (has_id i) db.delivery_attempts h.added) (rw gone refl)) in
        elim (Option-cases (find_row (has_id i) h.added)) [
          | inl none_new ↦ Passes-same limit i db db' (there ∙ none_new ∙ sym gone)
          | inr (a, new) ↦
              let born =
                find_row-All (λ x. stage_of x ≡ (pending, 0)) (has_id i) h.added h.fresh new in
              inr (
                subst (λ q. Progress limit (stage i db) q)
                  (sym (ap (Option.map stage_of) (there ∙ new) ∙ ap some born)) (rw gone created))
        ]
  ]

  pub reset-Passes :
      (s : Settings) (now i : ℕ) (db : Database)
      → Passes limit i db (reset_stale_in_flight s now db)
  unfolding reset_stale_in_flight
  reset-Passes s now i db =
      let old = is_stale (now - minutes s.delivery_stale_in_flight_minutes) in
      let after = find_attempt-update i old (reset_row now) db (λ x. refl) in
      elim (Option-cases (find_attempt i db)) [
        | inl gone ↦ Passes-same limit i db _ (ground (arith, after, gone))
        | inr (a, found) ↦ elim (Bool-cases (old a)) [
          | inl hit ↦
              Passes-moved limit i db _ a (reset_row now a) found
                (ground (arith, after, found, hit))
                (reset-Moves a.status a.attempt_count (ground (arith, hit)))
          | inr miss ↦ Passes-same limit i db _ (ground (arith, after, found, miss))
        ]
      ]

  pub retry-Passes :
      (id now updated i : ℕ) (db : Database)
      → Passes limit i db (retry_delivery id now updated db).1
  retry-Passes id now updated i db = elim (retry_cases id now updated db) [
    | inl same ↦ Passes-same limit i db _ (ap (find_attempt i) same)
    | inr (a, found, hit, e) ↦
        let after =
          ap (find_attempt i) e
          ∙ find_attempt-update_id i id (retried_row now updated) db (λ x. refl) in
        elim (Bool-cases (i == id)) [
          | inl eq ↦
              let here : find_attempt i db ≡ some a =
                ap (λ j. find_attempt j db) ((==_iff i id).0 eq) ∙ found in
              Passes-moved limit i db _ a (retried_row now updated a) here
                (ground (arith, after, here, eq)) (retry-Moves a.status a.attempt_count hit)
          | inr ne ↦ Passes-same limit i db _ (ground (arith, after, ne))
        ]
  ]
