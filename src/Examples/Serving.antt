-- ===== src/Examples/Serving.antt =====
-- The endpoints and the test receiver.
use mathlib.Core.List.{Permᴰ}
use unith_task.Prelude.{
  ◌++◌, ◌≤◌, ◌≡◌, refl, ◌&&◌, true, false, none, some, [], ◌∷◌, arith, length, All, if◌then◌else◌,
  ◌==◌,
}
use unith_task.Prelude.Result.{ok, raised, http_exception}
use unith_task.Db.{pending, dead, Database, is_subscriber, is_live}
use unith_task.Db.Table.{update_rows, find_row}
use unith_task.Schemas.{SubscriberUpdate, to_subscriber_response, to_delivery_response}
use unith_task.Api.Subscribers.{
  SubscriberApi, get_or_404, delete_subscriber, update_subscriber, get_cached_patch, patch_row,
  patched,
}
use unith_task.Api.Subscribers.Crud.{delete_subscriber_ok}
use unith_task.Api.Subscribers.PatchCache.{update_subscriber_again}
use unith_task.Api.Deliveries.{same_event_status}
use unith_task.Api.Deliveries.Listing.{created, list_deliveries_lem}
use unith_task.Db.Order.Descending.{Descending}
use unith_task.Api.Deliveries.{same_event_status, Filters, matches, list_deliveries}
use mathlib.Core.List.{Permᴰ}
use unith_task.Prelude.{◌++◌, ◌≤◌, map, min, List}
use unith_task.Db.{DeliveryAttempt}
use unith_task.Db.Table.{where_rows}
use unith_task.Examples.Data.{subscriber, tables, only_subscriber}

delete_subscriber_ok_example :
    let (r, db') = delete_subscriber 7 500 (tables pending) in
    (r ≡ ok tt)
    × (get_or_404 7 db' ≡ (
        if 7 == 7
        then raised (http_exception 404 "Subscriber not found")
        else get_or_404 7 (tables pending)))
    × All (λ y. (is_subscriber 7 y && is_live y) ≡ false) db'.subscribers
unfolding get_or_404 find_row
delete_subscriber_ok_example = delete_subscriber_ok 7 7 500 (tables pending) {x = subscriber} refl

abbrev deactivate : SubscriberUpdate
deactivate = record { endpoint = none; is_active = some false }

abbrev move : SubscriberUpdate
move = record { endpoint = some "http://new/hook"; is_active = none }

abbrev api : SubscriberApi
api = record { database = only_subscriber; cache = [] }

abbrev patched_tables : Database
patched_tables = record only_subscriber { subscribers = patched deactivate 500 subscriber ∷ [] }

-- The second request names another subscriber and another change.
update_subscriber_again_example :
    let first = update_subscriber 7 deactivate (some "k1") 500 500 510 api in
    (first.0 ≡ ok (to_subscriber_response (patched deactivate 500 subscriber)))
    × (update_subscriber 8 move (some "k1") 900 900 910 first.1 ≡ first)
unfolding get_cached_patch patch_row find_row update_rows
update_subscriber_again_example =
    update_subscriber_again 7 8 deactivate move "k1" 500 500 510 900 900 910 api
      {r = to_subscriber_response (patched deactivate 500 subscriber)} {db = patched_tables} refl
      refl refl (omega arith)

abbrev dead_ones : Filters
dead_ones = record { status = some dead; subscriber_id = none; message_id = none }

list_deliveries_lem_example :
    (rows : List DeliveryAttempt) × (left_out : List DeliveryAttempt) × (list_deliveries dead_ones
        50
        (tables dead)
      ≡ ok (map to_delivery_response rows))
    × All (λ a. matches dead_ones a ≡ true) rows
    × Descending created rows
    × (length rows
        ≡ min 50 (length (where_rows (matches dead_ones) (tables dead).delivery_attempts)))
    × Permᴰ (rows ++ left_out) (where_rows (matches dead_ones) (tables dead).delivery_attempts)
    × All (λ a. All (λ b. created b ≤ created a) left_out) rows
list_deliveries_lem_example =
    list_deliveries_lem dead_ones 50 (tables dead) (omega arith) (omega arith)
