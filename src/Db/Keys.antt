-- ===== src/Db/Keys.antt =====
-- Primary keys of the attempts: every id stands in one row.
use mathlib.Core.List.{Memᴰ}
use unith_task.Prelude.{
  ℕ, ◌≡◌, Bool, false, some, List, [], ◌∷◌, arith, take, All, All-map, All-and, ◌==◌,
}
use unith_task.Prelude.Apart.{Apart, Apart-take, take-Mem}
use unith_task.Db.{DeliveryAttempt, Database, has_id, find_attempt}
use unith_task.Db.Table.{
  where_rows, update_rows, find_row, All-where_rows_of, All-update_rows_to, IsScan, take-IsScan,
}
use unith_task.Db.Lookup.{IsKeyed}

abbrev pub row_id : DeliveryAttempt → ℕ
row_id a = a.id

abbrev pub HasKeys : Database → Type 0
HasKeys db = Apart row_id db.delivery_attempts

found_there :
    (rows : List DeliveryAttempt)
    → Apart row_id rows
    → All (λ a. find_row (has_id a.id) rows ≡ some a) rows
unfolding find_row
found_there [] h = tt
found_there (x ∷ xs) h = (
  ground arith,
  All-map (λ a. ((x.id == a.id) ≡ false) × (find_row (has_id a.id) xs ≡ some a))
      (λ a. find_row (has_id a.id) (x ∷ xs) ≡ some a) xs (λ a (away, found). ground arith)
      (All-and (λ a. (x.id == a.id) ≡ false) (λ a. find_row (has_id a.id) xs ≡ some a) xs h.0
        (found_there xs h.1)),
)

-- Then each row is the one that its id finds.
pub HasKeys-IsKeyed : (db : Database) → HasKeys db → IsKeyed db
unfolding find_attempt
HasKeys-IsKeyed db h = found_there db.delivery_attempts h

pub Apart-update_rows :
    (p : DeliveryAttempt → Bool) (f : DeliveryAttempt → DeliveryAttempt)
    (rows : List DeliveryAttempt)
    → ((x : DeliveryAttempt) → (f x).id ≡ x.id)
    → Apart row_id rows
    → Apart row_id (update_rows p f rows)
unfolding update_rows
Apart-update_rows p f [] k h = tt
Apart-update_rows p f (x ∷ xs) k h = (
  All-update_rows_to (λ y. (x.id == y.id) ≡ false) _ p f xs (λ y away. ground (arith, k x, k y))
      h.0,
  Apart-update_rows p f xs k h.1,
)

module _ {ℓ} {A : Type ℓ} where
  pub Apart-where_rows :
      (f : A → ℕ) (p : A → Bool) (xs : List A) → Apart f xs → Apart f (where_rows p xs)
  unfolding where_rows
  Apart-where_rows f p [] h = tt
  Apart-where_rows f p (x ∷ xs) h =
      ground
        (arith, All-where_rows_of (λ y. (f x == f y) ≡ false) p xs h.0, Apart-where_rows f p xs h.1)

-- A query also returns rows of the table only, and none of them twice.
pub record IsSelection (scan : ℕ → List DeliveryAttempt → List DeliveryAttempt) : Type 0 where
  pub choice : IsScan scan
  pub present : (n : ℕ) (rows : List DeliveryAttempt) → All (λ a. Memᴰ a rows) (scan n rows)
  pub once : (n : ℕ) (rows : List DeliveryAttempt) → Apart row_id rows → Apart row_id (scan n rows)

pub take-IsSelection : IsSelection take
take-IsSelection = record {
  choice = take-IsScan;
  present = take-Mem;
  once = λ n rows h. Apart-take row_id n rows h;
}
