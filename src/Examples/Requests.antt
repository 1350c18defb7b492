-- ===== src/Examples/Requests.antt =====
-- The API process at work.
use mathlib.Core.List.{Memᴰ}
use mathlib.Core.List.Memᴰ.{head, tail}
use unith_task.Prelude.{
  Bool, true, false, if◌then◌else◌, sym, ap, ◌∙◌, Bool-cases, Option, none, some, List, [], ◌∷◌,
  ◌≡◌, refl, inl, inr,
}
use unith_task.Prelude.Int.{pos}
use unith_task.Prelude.Result.{Result, ok, raised, exception}
use unith_task.Config.{settings}
use unith_task.Db.{no_rows}
use unith_task.Broker.{closes, Amqp, smooth, connect, disconnect}
use unith_task.Delivery.Client.{close_client}
use unith_task.Server.{shut_down}
use unith_task.Api.Events.{confirmed}
use unith_task.Api.Deliveries.{unreachable}
use unith_task.Api.Subscribers.Endpoints.{HasUrls}
use unith_task.Server.Routes.{
  Method, get_method, post_method, patch_method, delete_method, Endpoint, Route, subscriber_create,
  subscriber_list,
}
use unith_task.Server.App.{
  HttpRequest, Args, Framework, RequestDraws, Site, tables_of, with_state, handle, serve_requests,
  lifespan,
}
use unith_task.Server.App.Safety.{IsRouting}
use unith_task.Server.App.Errors.{handle_safe}
use unith_task.Server.App.Urls.{serve_requests-HasUrls}
use unith_task.Server.App.Life.{IsServed, lifespan_serves}
use unith_task.System.{System}
use unith_task.System.Requests.{Within, serve_requests-Reach}
use unith_task.Examples.Data.{codec, rt, consumer}

same_method : Method → Method → Bool
same_method get_method get_method = true
same_method post_method post_method = true
same_method patch_method patch_method = true
same_method delete_method delete_method = true
same_method _ _ = false

same_method-eq : (m n : Method) → same_method m n ≡ true → n ≡ m
unfolding same_method
same_method-eq get_method get_method h = refl
same_method-eq post_method post_method h = refl
same_method-eq patch_method patch_method h = refl
same_method-eq delete_method delete_method h = refl
same_method-eq _ _ h = absurd cc

-- A framework that takes the first route of the method, and reads the same body out of each request.
first_route : Method → List Route → Option Route
unfolding same_method
first_route m [] = none
first_route m (r ∷ rs) = if same_method m r.method then some r else first_route m rs

first_route_listed :
    (m : Method) (rs : List Route) (r : Route)
    → first_route m rs ≡ some r
    → Memᴰ r rs × (r.method ≡ m)
unfolding first_route
first_route_listed m [] r h = absurd cc
first_route_listed m (x ∷ rs) r h = elim (Bool-cases (same_method m x.method)) [
  | inl hit ↦
      let same : some x ≡ some r = sym (rw hit refl) ∙ h in
      let x_r : x ≡ r = cc same in
      (head (sym x_r), ap (λ (y : Route). y.method) (sym x_r) ∙ same_method-eq m x.method hit)
  | inr miss ↦
      let (there, eq) = first_route_listed m rs r (sym (rw miss refl) ∙ h) in (tail there, eq)
]

read : (e : Endpoint) → Result (Args e)
unfolding Args
read subscriber_create = ok (record { name = "web"; endpoint = "https://host/hook" })
read subscriber_list = ok tt
read _ = raised (exception "other")

abbrev fw : Framework
fw = record {
  find = λ rs req. first_route req.method rs;
  arguments = λ e req. read e;
  parse_int = λ text. none;
  netloc = λ v. some "host";
}

fw-IsRouting : IsRouting fw
fw-IsRouting = record {
  listed = λ rs req r found. (first_route_listed req.method rs r found).0;
  same_method = λ rs req r found. (first_route_listed req.method rs r found).1;
}

abbrev by : Method → HttpRequest
by m = record {
  method = m;
  path = "/api/v1/subscribers";
  content_length = none;
  headers = [];
  body = [];
}

abbrev draws : RequestDraws
draws = record {
  now = 20;
  updated = 20;
  mono = 20;
  stored_at = 20;
  new_id = 9;
  secret = "s";
  new_message_id = "u1";
  broker = confirmed;
  management = unreachable "down";
  pool = record { engine = none; checkedout = none; overflow = none; size = none };
  db_error = none;
  is_closed = false;
}

abbrev site : Site
site = record {
  api = record { state = record { rmq_connection = none; rmq_exchange = none }; client = none };
  database = no_rows;
  queue = [];
  cache = [];
  gauges = record { db_pool_checked_out = pos 0; db_pool_overflow = pos 0; db_pool_size = pos 0 };
}

handle_safe_example :
    tables_of (handle settings codec fw (by get_method) draws site).1 ≡ tables_of site
handle_safe_example =
    handle_safe settings codec fw fw-IsRouting (by get_method) draws site (inl refl)

abbrev two : List (HttpRequest × RequestDraws)
two = (by post_method, draws) ∷ (by get_method, draws) ∷ []

serve_requests-HasUrls_example :
    HasUrls fw.netloc (serve_requests settings codec fw two site).database
serve_requests-HasUrls_example = serve_requests-HasUrls settings codec fw two site tt

abbrev idle : System
idle = record {
  service = record { consumer = consumer no_rows; tasks = []; open_round = none };
  held = [];
}

serve_requests-Reach_example :
    Within settings codec rt 2 idle (serve_requests settings codec fw two site).database
serve_requests-Reach_example = serve_requests-Reach settings codec rt fw two site idle refl

abbrev broker : Amqp Bool
broker = record {
  declare_exchange = λ x b. b;
  declare_queue = λ q b. b;
  bind = λ q x k b. true;
  has_exchange = λ x b. true;
  has_queue = λ q b. true;
  routes = λ x k q b. b;
}

lifespan_serves_example :
    IsServed settings codec fw none false
      (serve_requests settings codec fw two
        (with_state (connect broker settings smooth site.api.state false).1.0 site))
      (lifespan settings codec fw broker smooth [] closes none site false).1.0
unfolding lifespan connect shut_down disconnect close_client serve_requests
lifespan_serves_example =
    lifespan_serves settings codec fw broker smooth two [] closes none none false site false refl tt
