-- ===== src/Examples/Starting.antt =====
-- The processes start and stop.
use unith_task.Prelude.{
  ◌≡◌, refl, String, Bool, true, false, Option, none, some, [], ◌∷◌, str_eq, ◌++◌, ◌∙◌, arith,
}
use unith_task.Prelude.Result.{ok}
use unith_task.Config.{settings}
use unith_task.Db.Schema.{Schema, columns_of, create_all}
use unith_task.Db.Schema.Bootstrap.{IsCreateTables, create_all_twice}
use unith_task.Broker.{Amqp, AppState, opened, smooth, api, consumer, boot_all}
use unith_task.Broker.Topology.{IsAmqp, reaches_queue, boot_all-reaches_queue}
use unith_task.Server.{Api}

abbrev no_error : Option String
no_error = none

abbrev app_state : AppState
app_state = record { rmq_connection = some opened; rmq_exchange = some "events" }

-- A broker with one binding, as whether it is there.
abbrev amqp : Amqp Bool
amqp = record {
  declare_exchange = λ x b. b;
  declare_queue = λ q b. b;
  bind = λ q x k b. true;
  has_exchange = λ x b. true;
  has_queue = λ q b. true;
  routes = λ x k q b. b;
}

amqp-IsAmqp : IsAmqp amqp
amqp-IsAmqp = record {
  exchange_there = λ x b. refl;
  queue_there = λ q b. refl;
  exchange_stays = λ x q b h. h;
  bound = λ q x k b h i. refl;
  exchange_binds_nothing = λ x k q y b h. refl;
  queue_binds_nothing = λ x k q r b h. refl;
}

boot_all-reaches_queue_example :
    reaches_queue amqp amqp-IsAmqp settings refl
      (boot_all amqp settings (api smooth ∷ consumer ∷ []) false)
    ≡ true
boot_all-reaches_queue_example =
    boot_all-reaches_queue amqp amqp-IsAmqp settings refl (api smooth ∷ consumer ∷ []) false

abbrev serving : Api
serving = record { state = app_state; client = some (record { id = 1; is_closed = false }) }

-- New tables stand behind the old ones, which hide those of the same name.
columns_of-append :
    (t : String) (old new : Schema)
    → columns_of t (old ++ new)
      ≡ elim (columns_of t old) [ some cs ↦ some cs | none ↦ columns_of t new ]
unfolding columns_of
columns_of-append t [] new = refl
columns_of-append t ((u, cs) ∷ old) new = ground (arith, columns_of-append t old new)

abbrev create_tables : Schema → Schema → Schema
create_tables m schema = schema ++ m

create_tables-IsCreateTables : IsCreateTables create_tables
create_tables-IsCreateTables = record {
  existing = λ m schema t cs there. columns_of-append t schema m ∙ rw there refl;
  missing = λ m schema t gone. columns_of-append t schema m ∙ rw gone refl;
}

abbrev old_schema : Schema
old_schema = ("idempotency_keys", "message_id" ∷ "status" ∷ []) ∷ []

create_all_twice_example :
    let (r, first) = create_all create_tables old_schema in
    let (r', second) = create_all create_tables first in
    (r ≡ ok tt)
    × (columns_of "idempotency_keys" first
        ≡ some ("message_id" ∷ "status" ∷ "reconcile_count" ∷ []))
    × (r' ≡ ok tt)
    × (columns_of "idempotency_keys" second ≡ columns_of "idempotency_keys" first)
unfolding columns_of str_eq
create_all_twice_example =
    create_all_twice create_tables create_tables-IsCreateTables old_schema "idempotency_keys"
