-- ===== src/Api/Deliveries/Listing.antt =====
-- GET /deliveries.
use mathlib.Core.List.{Permᴰ}
use mathlib.Core.Path.{subst}
use unith_task.Prelude.{
  drop, sym, ◌++◌, ℕ, ◌≤◌, ◌≡◌, true, List, arith, map, length, min, take, length-take, All,
  All-take,
}
use unith_task.Prelude.Result.{ok}
use unith_task.Db.{DeliveryAttempt, Database}
use unith_task.Db.Table.{where_rows, All-where_rows}
use unith_task.Db.Order.{order_by_desc}
use unith_task.Db.Order.Descending.{
  Descending, order_by_desc-Descending, All-order_by_desc, length-order_by_desc, take-Descending,
  take-append-drop, take-above-drop, order_by_desc-Perm,
}
use unith_task.Schemas.{to_delivery_response}
use unith_task.Api.Deliveries.{Filters, matches, list_deliveries}

abbrev pub created : DeliveryAttempt → ℕ
created a = a.created_at

-- A listing with a limit from 1 to 200 shows attempts that meet every filter, newest first, and as
-- many of them as the limit allows. Together with the ones that it leaves out they are the matching
-- attempts of the table, each as often as it stands there, and none that it leaves out is newer than
-- one that it shows.
pub list_deliveries_lem :
    (f : Filters) (limit : ℕ) (db : Database)
    → 1 ≤ limit
    → limit ≤ 200
    → (rows : List DeliveryAttempt) × (left_out : List DeliveryAttempt) × (list_deliveries f limit
          db
        ≡ ok (map to_delivery_response rows))
      × All (λ a. matches f a ≡ true) rows
      × Descending created rows
      × (length rows ≡ min limit (length (where_rows (matches f) db.delivery_attempts)))
      × Permᴰ (rows ++ left_out) (where_rows (matches f) db.delivery_attempts)
      × All (λ a. All (λ b. created b ≤ created a) left_out) rows
unfolding list_deliveries
list_deliveries_lem f limit db lo hi =
    let found = where_rows (matches f) db.delivery_attempts in
    let sorted = order_by_desc created found in
    let ordered = order_by_desc-Descending created found in
    (
      take limit sorted,
      drop limit sorted,
      ground arith,
      All-take (λ a. matches f a ≡ true) limit sorted
          (All-order_by_desc created (λ a. matches f a ≡ true) found
            (All-where_rows (matches f) db.delivery_attempts)),
      take-Descending created limit sorted ordered,
      omega (arith, length-take limit sorted, length-order_by_desc created found),
      subst (λ xs. Permᴰ xs found) (sym (take-append-drop created limit sorted))
          (order_by_desc-Perm created found),
      take-above-drop created limit sorted ordered,
    )
