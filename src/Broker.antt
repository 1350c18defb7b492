-- ===== src/Broker.antt =====
-- app/broker.py: the connection that the API keeps on `app.state`; and the set-up of `run` of
-- app/consumer/rabbitmq.py. What they declare at the broker stands behind an interface.
pub mod Topology
use unith_task.Prelude.{String, Bool, true, Option, none, some, List, [], ◌∷◌}
use unith_task.Prelude.Result.{Result, ok, raised, Exception, exception}
use unith_task.Config.{Settings}

-- The calls of aio_pika on the broker's exchanges, queues and bindings. `routes`: a message to an
-- exchange with a routing key gets into a queue.
pub record Amqp (B : Type 0) : Type 0 where
  pub declare_exchange : String → B → B
  pub declare_queue : String → B → B
  pub bind : (queue exchange key : String) → B → B
  pub has_exchange : String → B → Bool
  pub has_queue : String → B → Bool
  pub routes : (exchange key queue : String) → B → Bool

-- A connection as the process has left it: opened by `connect`, or closed by its own `close()`.
-- Whether aio_pika has closed an opened one is the library's answer, an argument where it is read.
pub data Connection : Type 0 where
  opened closed : Connection

-- `app.state`, where an attribute may be missing. The exchange stands for its name.
pub record AppState : Type 0 where
  pub rmq_connection : Option Connection
  pub rmq_exchange : Option String

-- Which call of `connect` raises, if one does.
pub data Trouble : Type 0 where
  smooth : Trouble
  no_connection : Exception → Trouble
  no_channel : Exception → Trouble
  no_exchange : Exception → Trouble
  no_queue : Exception → Trouble

module _ {B : Type 0} (amqp : Amqp B) (s : Settings) where
  unfoldable pub connect : Trouble → AppState → B → Result (Unit {0}) × (AppState × B)
  connect (no_connection e) app b = (raised e, (app, b))
  connect (no_channel e) app b = (raised e, (app, b))
  connect (no_exchange e) app b = (raised e, (app, b))
  connect (no_queue e) app b = (raised e, (app, amqp.declare_exchange s.rabbitmq_exchange b))
  connect smooth app b = (
    ok tt,
    (
      record { rmq_connection = some opened; rmq_exchange = some s.rabbitmq_exchange },
      amqp.declare_queue s.rabbitmq_queue (amqp.declare_exchange s.rabbitmq_exchange b),
    ),
  )

  -- `run` of the consumer, up to its subscription.
  unfoldable pub set_up : B → B
  set_up b =
      let exchange = s.rabbitmq_exchange in
      let queue = s.rabbitmq_queue in
      amqp.bind queue exchange queue (amqp.declare_queue queue (amqp.declare_exchange exchange b))

-- What `disconnect` finds of an opened connection: `is_closed` holds; `conn.close()` returns; it
-- raises.
pub data Closing : Type 0 where
  found_closed : Closing
  closes : Closing
  close_raises : Exception → Closing

unfoldable pub disconnect : Closing → AppState → Result (Unit {0}) × AppState
disconnect c app = elim app.rmq_connection [
  | none ↦ (ok tt, app)
  | some closed ↦ (ok tt, app)
  | some opened ↦ elim c [
    | found_closed ↦ (ok tt, app)
    | closes ↦ (ok tt, record app { rmq_connection = some closed })
    | close_raises e ↦ (raised e, app)
  ]
]

unfoldable pub get_exchange : AppState → Result String
get_exchange app = elim app.rmq_exchange [
  | none ↦ raised (exception "AttributeError")
  | some x ↦ ok x
]

-- A process that starts: the API, with what its `connect` meets; the consumer; or
-- scripts/publish_events.py, with the names on its command line.
pub data Boot : Type 0 where
  api : Trouble → Boot
  consumer : Boot
  publisher : (exchange queue : String) → Boot

-- The declarations of `publish` of scripts/publish_events.py.
unfoldable pub declare_names : {B : Type 0} → Amqp B → (exchange queue : String) → B → B
declare_names amqp exchange queue b = amqp.declare_queue queue (amqp.declare_exchange exchange b)

module _ {B : Type 0} (amqp : Amqp B) (s : Settings) where
  unfoldable pub boot : Boot → B → B
  unfolding connect set_up declare_names
  boot (api t) b = (connect amqp s t (record { rmq_connection = none; rmq_exchange = none }) b).1.1
  boot consumer b = set_up amqp s b
  boot (publisher exchange queue) b = declare_names amqp exchange queue b

  unfoldable pub boot_all : List Boot → B → B
  boot_all [] b = b
  boot_all (x ∷ xs) b = boot_all xs (boot x b)
