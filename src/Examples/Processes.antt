-- ===== src/Examples/Processes.antt =====
-- The processes together.
use unith_task.Prelude.{All, arith, [], ◌∷◌, ◌≡◌, refl, none, some, take, str_eq, text_length}
use unith_task.Config.{settings}
use unith_task.Db.{
  is_live, Database, pending, delivered, fits_column, find_key, find_attempt, in_flight,
  find_subscriber,
}
use unith_task.Db.Keys.{take-IsSelection}
use unith_task.Db.Table.{where_rows, find_row}
use unith_task.Delivery.Lifecycle.{stage}
use unith_task.Delivery.Claim.{claim_batch}
use unith_task.Consumer.Intake.{
  store_event, receive, create_delivery_attempts, insert_idempotency_key, insert_row, parse_event,
}
use unith_task.Consumer.Service.{Service, arrive, step}
use unith_task.System.{System, database_of, add_claims, consume, claim, Reach, start, later}
use unith_task.System.Claiming.{IsExclusive}
use unith_task.System.Exclusion.{Reach-IsExclusive}
use unith_task.System.Lifecycle.{Passes}
use unith_task.System.Refinement.{Happens-Passes, Reach-delivered}
use unith_task.System.Pipeline.{Reaches, arrive-Reaches}
use unith_task.System.Delivering.{CanDeliver}
use unith_task.System.Liveness.{IsDeliverable-CanDeliver}
use unith_task.Examples.Data.{
  attempt_at, body, event, message, codec, consumer, intake_env, key, only_subscriber, rt,
  subscriber, tables,
}

abbrev service : Database → Service
service db = record { consumer = consumer db; tasks = []; open_round = none }

-- The message arrives, a worker claims its attempt, and sends it.
abbrev empty_system : System
empty_system = record { service = service only_subscriber; held = [] }

abbrev arrived : System
arrived = record {
  service = step settings codec (arrive (intake_env 10) body) (service only_subscriber);
  held = [];
}

abbrev claimed_once : System
claimed_once = add_claims (claim_batch take 20 (database_of arrived)) arrived

schedule : Reach settings codec rt empty_system claimed_once
unfolding step receive parse_event unith_task.Json.get str_eq unith_task.Json.is_truthy fits_column
    text_length store_event insert_idempotency_key insert_row find_key find_row
    create_delivery_attempts where_rows
schedule =
    later (later start (consume (arrive (intake_env 10) body) (tt, tt)))
      (claim take 20 take-IsSelection)

Reach-IsExclusive_example : IsExclusive (database_of claimed_once) claimed_once.held
Reach-IsExclusive_example = Reach-IsExclusive settings codec rt schedule tt refl

-- One delivered attempt and one that is pending.
abbrev two : System
two = record { service = service (tables pending); held = [] }

abbrev two_claimed : System
two_claimed = add_claims (claim_batch take 20 (database_of two)) two

two-IsExclusive : IsExclusive (database_of two) two.held
two-IsExclusive = record { keys = ((refl, tt), (tt, tt)); rows = tt; once = tt }

Happens-Passes_example :
    Passes settings.delivery_max_attempts 2 (database_of two) (database_of two_claimed)
Happens-Passes_example =
    Happens-Passes settings codec rt 2 {v = two} two-IsExclusive (claim take 20 take-IsSelection)

Reach-delivered_example :
    IsExclusive (database_of two_claimed) two_claimed.held
    × (stage 1 (database_of two_claimed) ≡ some (delivered, 2))
unfolding find_attempt find_row
Reach-delivered_example =
    Reach-delivered settings codec rt 1 2 {v = two} two-IsExclusive
      (later start (claim take 20 take-IsSelection)) refl

-- The second attempt is in flight, and no worker holds it.
abbrev lost : System
lost = record { service = service (tables in_flight); held = [] }

IsDeliverable-CanDeliver_example : CanDeliver settings codec rt 2 lost
unfolding find_attempt find_key find_subscriber find_row str_eq
IsDeliverable-CanDeliver_example =
    IsDeliverable-CanDeliver settings codec rt 2 lost ((refl, tt), (tt, tt))
      (record {
        row = attempt_at 2 in_flight;
        found = refl;
        event = key;
        stored = refl;
        subscriber = subscriber;
        present = refl;
        live = refl;
      })

arrive-Reaches_example :
    All (Reaches settings codec rt arrived "m1") (where_rows is_live (subscriber ∷ []))
unfolding step receive parse_event unith_task.Json.get str_eq unith_task.Json.is_truthy fits_column
    text_length store_event insert_idempotency_key insert_row find_key find_row
    create_delivery_attempts where_rows find_subscriber
arrive-Reaches_example =
    arrive-Reaches settings codec rt empty_system (intake_env 10) body event
      (record { value = message; small = omega arith; loaded = refl; parsed = refl }) refl refl
      (refl, tt) (tt, tt)
