-- ===== src/Server.antt =====
-- app/main.py: the body-size middleware, the readiness probe and the end of `lifespan`.
pub mod Readiness
pub mod Routes
pub mod App
use unith_task.Prelude.{
  ℕ, String, Bool, true, false, not, Option, none, some, List, [], ◌∷◌, ◌++◌, if◌then◌else◌,
  is_empty, f_string,
}
use unith_task.Prelude.Int.{ℤ, gt_ℕ}
use unith_task.Prelude.Result.{Result, ok, raised, Exception, exception}
use unith_task.Config.{Settings}
use unith_task.Broker.{Closing, Connection, opened, closed, AppState, disconnect}
use unith_task.Delivery.Client.{Client, close_client}

-- `_BodySizeLimitMiddleware.dispatch`: 413, an exception of `int`, or the next handler's answer.
-- `parse_int` is Python's `int` on the header's text.
pub data Dispatched : Type 0 where
  too_large : Dispatched
  passed_on : Dispatched

unfoldable pub dispatch : Settings → (String → Option ℤ) → Option String → Result Dispatched
dispatch s parse_int none = ok passed_on
dispatch s parse_int (some header) =
    if is_empty header then ok passed_on else elim (parse_int header) [
      | none ↦ raised (exception "ValueError")
      | some n ↦ if gt_ℕ n s.api_max_request_body_bytes then ok too_large else ok passed_on
    ]

-- `is_closed` is what aio_pika says of a connection that the process has not closed.
abbrev is_up : (is_closed : Bool) → Option Connection → Bool
is_up is_closed none = false
is_up is_closed (some opened) = not is_closed
is_up is_closed (some closed) = false

-- The error of the database check, if it raised.
abbrev db_errors : Option String → List String
db_errors none = []
db_errors (some exc) = f_string ("db: " ∷ exc ∷ []) ∷ []

-- `readiness`: the status code and the errors.
unfoldable pub readiness : Option String → (is_closed : Bool) → AppState → ℕ × List String
readiness db_error is_closed app =
    let errors =
      db_errors db_error
      ++ (if is_up is_closed app.rmq_connection
          then []
          else "rabbitmq: connection not established" ∷ []) in
    elim errors [ [] ↦ (200, []) | e ∷ es ↦ (503, e ∷ es) ]

-- A process of the API: its `app.state` and the HTTP client of app/delivery/sender.py.
pub record Api : Type 0 where
  pub state : AppState
  pub client : Option Client

close_then : Option Exception → Result (Unit {0}) × AppState → Api → Result (Unit {0}) × Api
close_then failure (raised e, state) a = (raised e, record a { state = state })
close_then failure (ok x, state) a =
    let (r, client) = close_client failure a.client in
    (r, record { state = state; client = client })

-- The end of `lifespan`: the connection, then the client, with what each `close` meets.
unfoldable pub shut_down :
    Closing → (client_fails : Option Exception) → Api → Result (Unit {0}) × Api
unfolding close_then
shut_down closing client_fails a = close_then client_fails (disconnect closing a.state) a
