-- ===== src/Server/App.antt =====
-- The API process as a whole: `create_app` of app/main.py with its middleware, the endpoints behind
-- the routes, and `lifespan`. Which route meets a request, and how its path, query and body are read,
-- is FastAPI's: a parameter.
pub mod Cases
pub mod Safety
pub mod Errors
pub mod Writes
pub mod Urls
pub mod Life
use unith_task.Prelude.{Bool, ℕ, String, Bytes, Option, none, some, List, [], ◌∷◌, if◌then◌else◌}
use unith_task.Prelude.Int.{ℤ}
use unith_task.Prelude.Result.{Result, ok, raised, Exception, http_exception}
use unith_task.Config.{Settings}
use unith_task.Json.{Codec}
use unith_task.Db.{Database}
use unith_task.Schemas.{
  EventPublishRequest, is_valid_publish, SubscriberCreate, SubscriberUpdate, valid_create,
  valid_update, SubscriberResponse, SubscriberCreatedResponse, EnrichedEventResponse,
  DeliveryAttemptResponse,
}
use unith_task.Broker.{Amqp, AppState, Closing, Trouble, connect}
use unith_task.Metrics.{PoolGauges, Pool, update_pool_metrics}
use unith_task.Api.Subscribers.{
  Cache, SubscriberApi, create_subscriber, list_subscribers, get_subscriber, update_subscriber,
  delete_subscriber,
}
use unith_task.Api.Events.{Delivered, publish_through, get_event}
use unith_task.Api.Deliveries.{
  Filters, ManagementReply, PipelineStats, list_deliveries, retry_delivery, pipeline_stats,
}
use unith_task.Server.{Dispatched, too_large, passed_on, Api, readiness, shut_down}
use unith_task.Server.{dispatch}
use unith_task.Server.Routes.{
  Method, Endpoint, Route, subscriber_create, subscriber_list, subscriber_get, subscriber_update,
  subscriber_delete, event_publish, event_get, delivery_list, delivery_retry, stats, metrics,
  liveness, ready, app_routes,
}

pub record HttpRequest : Type 0 where
  pub method : Method
  pub path : String
  pub content_length : Option String
  pub headers : List (String × String)
  pub body : Bytes

-- What a request gives the function behind an endpoint. Bodies are not checked yet.
unfoldable pub Args : Endpoint → Type 0
Args subscriber_create = SubscriberCreate
Args subscriber_list = Unit
Args subscriber_get = ℕ
Args subscriber_update = ℕ × Option String × SubscriberUpdate
Args subscriber_delete = ℕ
Args event_publish = EventPublishRequest
Args event_get = String
Args delivery_list = Filters × ℕ
Args delivery_retry = ℕ
Args stats = Unit
Args metrics = Unit
Args liveness = Unit
Args ready = Unit

-- FastAPI's choice of a route and its reading of a request, Python's `int`, and urlparse's netloc.
pub record Framework : Type 0 where
  pub find : List Route → HttpRequest → Option Route
  pub arguments : (e : Endpoint) → HttpRequest → Result (Args e)
  pub parse_int : String → Option ℤ
  pub netloc : String → Option String

-- What a request draws: clocks, new ids, and the answers of the broker, the management API, the
-- connection pool, the database probe and the connection's `is_closed`.
pub record RequestDraws : Type 0 where
  pub now : ℕ
  pub updated : ℕ
  pub mono : ℕ
  pub stored_at : ℕ
  pub new_id : ℕ
  pub secret : String
  pub new_message_id : String
  pub broker : Delivered
  pub management : ManagementReply
  pub pool : Pool
  pub db_error : Option String
  pub is_closed : Bool

-- The state that the process serves from: its own, the tables, the queue, the cache, the gauges.
pub record Site : Type 0 where
  pub api : Api
  pub database : Database
  pub queue : List Bytes
  pub cache : Cache
  pub gauges : PoolGauges

pub data Body : Type 0 where
  created : SubscriberCreatedResponse → Body
  subscribers : List SubscriberResponse → Body
  subscriber : SubscriberResponse → Body
  no_content : Body
  queued : String → Body
  event : EnrichedEventResponse → Body
  deliveries : List DeliveryAttemptResponse → Body
  delivery : DeliveryAttemptResponse → Body
  pipeline : PipelineStats → Body
  exposition : PoolGauges → Body
  alive : Body
  probe : ℕ → List String → Body

pub data Reply : Type 0 where
  done : ℕ → Body → Reply
  body_too_large : Reply
  no_route : Reply
  failed_with : Exception → Reply

abbrev answer : {A : Type 0} → (A → Body) → Result A → Result Body
answer f (ok a) = ok (f a)
answer f (raised e) = raised e

-- A body or a parameter that does not pass its checks.
abbrev unprocessable : Exception
unprocessable = http_exception 422 "body"

abbrev pub tables_of : Site → SubscriberApi
tables_of w = record { database = w.database; cache = w.cache }

abbrev pub put_tables : SubscriberApi → Site → Site
put_tables t w = record w { database = t.database; cache = t.cache }

module _ (codec : Codec) (netloc : String → Option String) (d : RequestDraws) where
  created_by : Result SubscriberCreate → Site → Result Body × Site
  created_by (raised e) w = (raised unprocessable, w)
  created_by (ok b) w =
      let (r, db) = create_subscriber d.new_id d.secret d.now b w.database in
      (ok (created r), record w { database = db })

  updated_by : ℕ → Option String → Result SubscriberUpdate → Site → Result Body × Site
  updated_by id key (raised e) w = (raised unprocessable, w)
  updated_by id key (ok b) w =
      let (r, t) = update_subscriber id b key d.now d.mono d.stored_at (tables_of w) in
      (answer subscriber r, put_tables t w)

  -- The functions behind the routes.
  unfoldable pub call : (e : Endpoint) → Args e → Site → Result Body × Site
  unfolding Args created_by updated_by
  call subscriber_create b w = created_by (valid_create netloc b) w
  call subscriber_list x w = (ok (subscribers (list_subscribers w.database)), w)
  call subscriber_get id w = (answer subscriber (get_subscriber id w.database), w)
  call subscriber_update (id, key, b) w = updated_by id key (valid_update netloc b) w
  call subscriber_delete id w =
      let (r, db) = delete_subscriber id d.now w.database in
      (answer (λ x. no_content) r, record w { database = db })
  call event_publish b w =
      if is_valid_publish codec b
      then (let (r, q) = publish_through codec d.new_message_id d.broker b w.api.state w.queue in
          (answer queued r, record w { queue = q }))
      else (raised unprocessable, w)
  call event_get m w = (answer event (get_event m w.database), w)
  call delivery_list (f, limit) w = (answer deliveries (list_deliveries f limit w.database), w)
  call delivery_retry id w =
      let (r, db) = retry_delivery id d.now d.updated w.database in
      (answer delivery r, record w { database = db })
  call stats x w = (ok (pipeline (pipeline_stats d.management w.database)), w)
  call metrics x w =
      let g = update_pool_metrics d.pool w.gauges in (ok (exposition g), record w { gauges = g })
  call liveness x w = (ok alive, w)
  call ready x w =
      let (code, errors) = readiness d.db_error d.is_closed w.api.state in
      (ok (probe code errors), w)

-- The probe sets its own status code.
abbrev code_of : Route → Body → ℕ
code_of r (probe code errors) = code
code_of r _ = r.status_code

abbrev reply_by : Route → Result Body × Site → Reply × Site
reply_by r (ok b, w) = (done (code_of r b) b, w)
reply_by r (raised e, w) = (failed_with e, w)

abbrev pub with_state : AppState → Site → Site
with_state state w = record w { api = record w.api { state = state } }

module _ (s : Settings) (codec : Codec) (fw : Framework) where
  run_args : RequestDraws → (r : Route) → Result (Args r.endpoint) → Site → Reply × Site
  run_args d r (raised e) w = (failed_with unprocessable, w)
  run_args d r (ok args) w = reply_by r (call codec fw.netloc d r.endpoint args w)

  run_route : HttpRequest → RequestDraws → Option Route → Site → Reply × Site
  unfolding run_args
  run_route req d none w = (no_route, w)
  run_route req d (some r) w = run_args d r (fw.arguments r.endpoint req) w

  pass : HttpRequest → RequestDraws → Result Dispatched → Site → Reply × Site
  unfolding run_route
  pass req d (raised e) w = (failed_with e, w)
  pass req d (ok too_large) w = (body_too_large, w)
  pass req d (ok passed_on) w = run_route req d (fw.find app_routes req) w

  -- One request: the middleware, the route, the function behind it.
  unfoldable pub handle : HttpRequest → RequestDraws → Site → Reply × Site
  unfolding pass
  handle req d w = pass req d (dispatch s fw.parse_int req.content_length) w

  unfoldable pub serve_requests : List (HttpRequest × RequestDraws) → Site → Site
  serve_requests [] w = w
  serve_requests ((req, d) ∷ rest) w = serve_requests rest (handle req d w).1

  -- What comes behind `connect` in `lifespan`: where it raised, the process does not start.
  serve_until :
      {B : Type 0}
      → List (HttpRequest × RequestDraws)
      → Closing
      → (client_fails : Option Exception) → Result (Unit {0}) × (AppState × B)
      → Site
      → Result (Unit {0}) × (Site × B)
  serve_until requests closing client_fails (raised e, (state, b)) w =
      (raised e, (with_state state w, b))
  serve_until requests closing client_fails (ok x, (state, b)) w =
      let served = serve_requests requests (with_state state w) in
      let (r, api) = shut_down closing client_fails served.api in
      (r, (record served { api = api }, b))

  -- `lifespan`, with the requests at its `yield`. What the last calls meet is an argument.
  unfoldable pub lifespan :
      {B : Type 0}
      → Amqp B
      → Trouble
      → List (HttpRequest × RequestDraws)
      → Closing
      → (client_fails : Option Exception) → Site
      → B
      → Result (Unit {0}) × (Site × B)
  unfolding serve_until
  lifespan amqp t requests closing client_fails w b =
      serve_until requests closing client_fails (connect amqp s t w.api.state b) w
