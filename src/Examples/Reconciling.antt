-- ===== src/Examples/Reconciling.antt =====
-- A round of the reconciler over two stale events.
use unith_task.Prelude.{true, ◌≡◌, refl, arith, some, [], ◌∷◌, map, take, str_eq, if◌then◌else◌}
use unith_task.Config.{settings}
use unith_task.Db.{IdempotencyKey, Database, find_key}
use unith_task.Db.Table.{find_row, where_rows, update_rows}
use unith_task.Consumer.Reconciler.{
  Publish, published, publish_error, abandon, changed_row, stale_rows, reconcile_rows,
  commit_changes, reconcile,
}
use unith_task.Consumer.Reconciler.Abort.{body_of, reconcile_aborted}
use unith_task.Consumer.Reconciler.Abandon.{
  RoundEnv, after_round, after_rounds, IsPublished, ArePublished, after_rounds-abandoned,
}
use unith_task.Examples.Data.{codec, key}

-- An event that has been published ten times.
abbrev old_key : IdempotencyKey
old_key = record key { message_id = "m0"; reconcile_count = 10 }

abbrev other_key : IdempotencyKey
other_key = record key { message_id = "m2" }

abbrev old_and_new : Database
old_and_new = record {
  has_count_default = true;
  subscribers = [];
  idempotency_keys = old_key ∷ key ∷ [];
  delivery_attempts = [];
}

abbrev two_new : Database
two_new = record {
  has_count_default = true;
  subscribers = [];
  idempotency_keys = key ∷ other_key ∷ [];
  delivery_attempts = [];
}

-- The broker goes away behind the first message.
abbrev broker : IdempotencyKey → Publish
broker k = if str_eq k.message_id "m2" then publish_error "closed" else published

reconcile_aborted_example :
    reconcile settings codec take broker 900000 two_new ≡ (map (body_of codec) (key ∷ []), two_new)
unfolding stale_rows where_rows str_eq
reconcile_aborted_example =
    reconcile_aborted settings codec broker take 900000 two_new (key ∷ []) other_key [] "closed"
      refl refl refl ((refl, refl), tt)

-- One cycle below the limit, beside a younger event: the second of two rounds gives the event up.
abbrev ninth : IdempotencyKey
ninth = record key { message_id = "m0"; reconcile_count = 9 }

abbrev ninth_and_new : Database
ninth_and_new = record old_and_new { idempotency_keys = ninth ∷ key ∷ [] }

abbrev round : RoundEnv
round = record { scan = take; publish = λ k. published; now = 900000 }

first_round : IsPublished settings codec round ninth ninth_and_new
unfolding stale_rows where_rows find_key find_row str_eq
first_round = record {
  pre = [];
  post = key ∷ [];
  loaded = refl;
  fine = (refl, (refl, tt));
  before = tt;
  behind = (refl, tt);
  sent = refl;
}

second_round :
    IsPublished settings codec round
      (record ninth { reconcile_count = 10 })
      (after_round settings codec round ninth_and_new)
unfolding stale_rows where_rows find_key find_row str_eq reconcile reconcile_rows commit_changes
    update_rows
second_round = record {
  pre = [];
  post = record key { reconcile_count = 1 } ∷ [];
  loaded = refl;
  fine = (refl, (refl, tt));
  before = tt;
  behind = (refl, tt);
  sent = refl;
}

after_rounds-abandoned_example :
    find_key "m0" (after_rounds settings codec (round ∷ round ∷ []) ninth_and_new)
    ≡ some (changed_row (abandon 10) old_key)
unfolding find_key find_row str_eq ArePublished
after_rounds-abandoned_example =
    after_rounds-abandoned settings codec (round ∷ round ∷ []) ninth ninth_and_new refl
      (omega arith) refl (first_round, (second_round, tt))
