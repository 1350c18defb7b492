-- ===== src/Api/Subscribers/Crud.antt =====
-- A DELETE, and what it leaves for the other endpoints and for the worker.
use unith_task.Prelude.{
  ℕ, ◌≡◌, refl, false, ◌&&◌, Option, none, some, List, [], ◌∷◌, arith, ◌==◌, if◌then◌else◌, All,
  Option-cases, inl, inr,
}
use unith_task.Prelude.Result.{Result, ok, raised, http_exception}
use unith_task.Db.{Subscriber, Database, is_subscriber, is_live}
use unith_task.Db.Table.{update_rows, find_row}
use unith_task.Api.Subscribers.{is_present, get_or_404, deleted, delete_subscriber}

-- No row of the id is present behind a delete; the present row of any other id is the old one.
present-deleted :
    (i id now : ℕ) (rows : List Subscriber)
    → find_row (is_present i) (update_rows (is_subscriber id) (deleted now) rows)
      ≡ (if i == id then none else find_row (is_present i) rows)
unfolding find_row update_rows
present-deleted i id now [] = ground arith
present-deleted i id now (x ∷ xs) = ground (arith, present-deleted i id now xs)

-- No row of the id is live, for the fan-out and for the worker.
live-deleted :
    (id now : ℕ) (rows : List Subscriber)
    → All
        (λ x. (is_subscriber id x && is_live x) ≡ false)
        (update_rows (is_subscriber id) (deleted now) rows)
unfolding update_rows
live-deleted id now [] = tt
live-deleted id now (x ∷ xs) = (ground arith, live-deleted id now xs)

abbrev pub row_or_404 : Option Subscriber → Result Subscriber
row_or_404 none = raised (http_exception 404 "Subscriber not found")
row_or_404 (some x) = ok x

pub get_or_404_lem :
    (i : ℕ) (db : Database) → get_or_404 i db ≡ row_or_404 (find_row (is_present i) db.subscribers)
unfolding get_or_404
get_or_404_lem i db = elim (Option-cases (find_row (is_present i) db.subscribers)) [
  | inl e ↦ rw (e, get_or_404) refl
  | inr (a, e) ↦ rw (e, get_or_404) refl
]

-- Deleting a present subscriber succeeds. Behind it the lookup of the endpoints raises 404 for its
-- id and answers as before for every other id, and no row of its id is live, as the fan-out of an
-- event and the worker ask for.
pub delete_subscriber_ok :
    (id i now : ℕ) (db : Database) {x : Subscriber}
    → get_or_404 id db ≡ ok x
    → let (r, db') = delete_subscriber id now db in
      (r ≡ ok tt)
      × (get_or_404 i db' ≡ (
          if i == id then raised (http_exception 404 "Subscriber not found") else get_or_404 i db))
      × All (λ y. (is_subscriber id y && is_live y) ≡ false) db'.subscribers
unfolding delete_subscriber
delete_subscriber_ok id i now db {x} e =
    let db' = record db {
      subscribers = update_rows (is_subscriber id) (deleted now) db.subscribers;
    } in
    rw (e, delete_subscriber)
      (
        refl,
        ground (
          arith,
          get_or_404_lem i db',
          get_or_404_lem i db,
          present-deleted i id now db.subscribers,
        ),
        live-deleted id now db.subscribers,
      )
