-- ===== src/Server/Readiness.antt =====
-- The readiness probe, and the life of the connection and the client.
use unith_task.Prelude.{
  ◌≡◌, refl, ap, ◌∙◌, ◌↔◌, String, Bool, false, true, if◌then◌else◌, Option, none, some, arith,
}
use unith_task.Prelude.Result.{Result, ok, raised, Exception}
use unith_task.Config.{Settings}
use unith_task.Broker.{
  Closing, found_closed, closes, close_raises, Amqp, Connection, opened, closed, AppState, Trouble,
  smooth, no_connection, no_channel, no_exchange, no_queue, connect, disconnect, get_exchange,
}
use unith_task.Delivery.Client.{Client, close_client}
use unith_task.Server.{close_then, readiness, Api, shut_down}

probe_iff :
    (db_error : Option String) (is_closed : Bool) (conn : Option Connection) (x : Option String)
    → ((readiness db_error is_closed (record { rmq_connection = conn; rmq_exchange = x })).0 ≡ 200)
      ↔ ((db_error ≡ none) × (is_closed ≡ false) × (conn ≡ some opened))
unfolding readiness
probe_iff none is_closed none x = ground arith
probe_iff none is_closed (some opened) x = ground arith
probe_iff none is_closed (some closed) x = ground arith
probe_iff (some e) is_closed none x = ground arith
probe_iff (some e) is_closed (some opened) x = ground arith
probe_iff (some e) is_closed (some closed) x = ground arith

-- The probe answers 200 exactly when the database check passed and the connection is opened and not
-- reported as closed.
pub readiness_iff :
    (db_error : Option String) (is_closed : Bool) (app : AppState)
    → ((readiness db_error is_closed app).0 ≡ 200)
      ↔ ((db_error ≡ none) × (is_closed ≡ false) × (app.rmq_connection ≡ some opened))
readiness_iff db_error is_closed app =
    probe_iff db_error is_closed app.rmq_connection app.rmq_exchange

-- Behind a `connect` that returns.
abbrev pub Serves : Settings → AppState → AppState → Result (Unit {0}) → Type 0
Serves s app app' (ok x) =
    ((is_closed : Bool) → (readiness none is_closed app').0 ≡ (if is_closed then 503 else 200))
    × (get_exchange app' ≡ ok s.rabbitmq_exchange)
Serves s app app' (raised e) = app' ≡ app

-- When `connect` returns, the probe answers 200 if the database does and the connection is not
-- reported as closed, and a request gets the exchange. When it raises, at whichever of its calls, `app.state` is as it was.
pub connect-Serves :
    {B : Type 0} (amqp : Amqp B) (s : Settings) (t : Trouble) (app : AppState) (b : B)
    → let (r, (app', b')) = connect amqp s t app b in Serves s app app' r
unfolding connect readiness get_exchange
connect-Serves amqp s smooth app b = (λ is_closed. ground arith, refl)
connect-Serves amqp s (no_connection e) app b = refl
connect-Serves amqp s (no_channel e) app b = refl
connect-Serves amqp s (no_exchange e) app b = refl
connect-Serves amqp s (no_queue e) app b = refl

close_client_ok :
    (failure : Option Exception) (c : Option Client)
    → (close_client failure c).0 ≡ ok tt
    → (close_client failure c).1 ≡ none
unfolding close_client
close_client_ok failure none h = refl
close_client_ok none (some c) h = ground arith
close_client_ok (some e) (some c) h = ground arith

close_then_ok :
    (failure : Option Exception) (p : Result (Unit {0}) × AppState) (a : Api)
    → (close_then failure p a).0 ≡ ok tt
    → (p.0 ≡ ok tt)
      × ((close_then failure p a).1.client ≡ none)
      × ((close_then failure p a).1.state ≡ p.1)
unfolding close_then
close_then_ok failure (raised e, state) a h = absurd cc
close_then_ok failure (ok x, state) a h = (refl, close_client_ok failure a.client h, refl)

-- What `is_closed` says behind `disconnect`: a connection that was reported as closed stays so.
abbrev pub StaysClosed : Closing → Bool → Type 0
StaysClosed found_closed is_closed = is_closed ≡ true
StaysClosed closes is_closed = Unit
StaysClosed (close_raises e) is_closed = Unit

probe_down :
    (db_error : Option String) (is_closed : Bool) (c : Closing) (conn : Option Connection)
    (x : Option String)
    → let (r, app') = disconnect c (record { rmq_connection = conn; rmq_exchange = x }) in
      r ≡ ok tt → StaysClosed c is_closed → (readiness db_error is_closed app').0 ≡ 503
unfolding disconnect readiness
probe_down none is_closed c none x h stays = refl
probe_down (some e) is_closed c none x h stays = refl
probe_down none is_closed c (some closed) x h stays = refl
probe_down (some e) is_closed c (some closed) x h stays = refl
probe_down none is_closed closes (some opened) x h stays = refl
probe_down (some e) is_closed closes (some opened) x h stays = refl
probe_down none is_closed found_closed (some opened) x h stays = ground (arith, stays)
probe_down (some e) is_closed found_closed (some opened) x h stays = refl
probe_down db_error is_closed (close_raises e) (some opened) x h stays = absurd cc

-- A shutdown that raises nothing leaves no HTTP client behind, and the probe then answers 503.
pub shut_down_clean :
    (c : Closing) (client_fails : Option Exception) (db_error : Option String) (is_closed : Bool)
    (a : Api)
    → (shut_down c client_fails a).0 ≡ ok tt
    → StaysClosed c is_closed
    → let a' = (shut_down c client_fails a).1 in
      (a'.client ≡ none) × ((readiness db_error is_closed a'.state).0 ≡ 503)
unfolding shut_down
shut_down_clean c client_fails db_error is_closed a h stays =
    let (fine, gone, same) = close_then_ok client_fails (disconnect c a.state) a h in
    (
      gone,
      ap (λ t. (readiness db_error is_closed t).0) same
          ∙ probe_down db_error is_closed c a.state.rmq_connection a.state.rmq_exchange fine stays,
    )
