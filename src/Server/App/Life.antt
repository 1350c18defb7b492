-- ===== src/Server/App/Life.antt =====
-- `lifespan`: what holds while the process serves, and when it has ended.
use unith_task.Prelude.{
  ℕ, ◌≡◌, refl, ◌∙◌, ap, String, Bool, if◌then◌else◌, Option, none, List, [], ◌∷◌, inl, inr,
  Bool-cases,
}
use unith_task.Prelude.Result.{Result, ok, raised, Exception}
use unith_task.Config.{Settings}
use unith_task.Json.{Codec}
use unith_task.Schemas.{
  SubscriberCreate, SubscriberUpdate, is_valid_publish, valid_create, valid_update,
}
use unith_task.Broker.{Closing, Amqp, AppState, Trouble, connect, get_exchange}
use unith_task.Server.{readiness, Api}
use unith_task.Server.Readiness.{StaysClosed, Serves, connect-Serves, shut_down_clean}
use unith_task.Server.Routes.{
  Endpoint, subscriber_create, subscriber_list, subscriber_get, subscriber_update,
  subscriber_delete, event_publish, event_get, delivery_list, delivery_retry, stats, metrics,
  liveness, ready,
}
use unith_task.Server.App.{
  HttpRequest, Args, Framework, RequestDraws, Site, created_by, updated_by, call, with_state,
  handle, serve_requests, serve_until, lifespan,
}
use unith_task.Server.App.Cases.{reply_by-site, handle_cases}

module _ (codec : Codec) (netloc : String → Option String) (d : RequestDraws) where
  created_by-api :
      (r : Result SubscriberCreate) (w : Site) → (created_by codec netloc d r w).1.api ≡ w.api
  unfolding created_by
  created_by-api (raised e) w = refl
  created_by-api (ok b) w = refl

  updated_by-api :
      (id : ℕ) (key : Option String) (r : Result SubscriberUpdate) (w : Site)
      → (updated_by codec netloc d id key r w).1.api ≡ w.api
  unfolding updated_by
  updated_by-api id key (raised e) w = refl
  updated_by-api id key (ok b) w = refl

  call-api :
      (e : Endpoint) (args : Args e) (w : Site) → (call codec netloc d e args w).1.api ≡ w.api
  unfolding call Args
  call-api subscriber_create b w = created_by-api (valid_create netloc b) w
  call-api subscriber_update (id, key, b) w = updated_by-api id key (valid_update netloc b) w
  call-api event_publish b w = elim (Bool-cases (is_valid_publish codec b)) [
    | inl fine ↦ rw (fine, call) refl
    | inr bad ↦ rw (bad, call) refl
  ]
  call-api subscriber_delete id w = refl
  call-api delivery_retry id w = refl
  call-api subscriber_list x w = refl
  call-api subscriber_get id w = refl
  call-api event_get m w = refl
  call-api delivery_list x w = refl
  call-api stats x w = refl
  call-api metrics x w = refl
  call-api liveness x w = refl
  call-api ready x w = refl

module _ (s : Settings) (codec : Codec) (fw : Framework) where
  handle-api :
      (req : HttpRequest) (d : RequestDraws) (w : Site) → (handle s codec fw req d w).1.api ≡ w.api
  handle-api req d w = elim (handle_cases s codec fw req d w) [
    | inl (reply, idle) ↦ rw idle refl
    | inr (r, args, found, ran) ↦
        rw (ran, reply_by-site) (call-api codec fw.netloc d r.endpoint args w)
  ]

  -- No request changes the connection or the client.
  serve_requests-api :
      (requests : List (HttpRequest × RequestDraws)) (w : Site)
      → (serve_requests s codec fw requests w).api ≡ w.api
  unfolding serve_requests
  serve_requests-api [] w = refl
  serve_requests-api ((req, d) ∷ rest) w =
      serve_requests-api rest (handle s codec fw req d w).1 ∙ handle-api req d w

  -- Behind the end of `lifespan`, where nothing was raised.
  pub record IsServed (db_error : Option String) (closed_at_end : Bool) (serving after : Site)
      : Type 0 where
    pub is_ready :
        (is_closed : Bool)
        → (readiness none is_closed serving.api.state).0 ≡ (if is_closed then 503 else 200)
    pub exchange : get_exchange serving.api.state ≡ ok s.rabbitmq_exchange
    pub no_client : after.api.client ≡ none
    pub not_ready : (readiness db_error closed_at_end after.api.state).0 ≡ 503

  serve_until_ok :
      {B : Type 0} (so_far requests : List (HttpRequest × RequestDraws)) (closing : Closing)
      (client_fails : Option Exception) (db_error : Option String) (closed_at_end : Bool)
      (p : Result (Unit {0}) × (AppState × B)) (w : Site)
      → Serves s w.api.state p.1.0 p.0
      → (serve_until s codec fw requests closing client_fails p w).0 ≡ ok tt
      → StaysClosed closing closed_at_end
      → IsServed db_error closed_at_end
          (serve_requests s codec fw so_far (with_state p.1.0 w))
          (serve_until s codec fw requests closing client_fails p w).1.0
  unfolding serve_until
  serve_until_ok so_far requests closing client_fails db_error closed_at_end (raised e, (state, b))
        w h fine stays =
      absurd cc
  serve_until_ok so_far requests closing client_fails db_error closed_at_end (ok x, (state, b)) w h
        fine stays =
      let w₁ = with_state state w in
      let same = serve_requests-api so_far w₁ in
      let (gone, down) =
        shut_down_clean closing client_fails db_error closed_at_end
          (serve_requests s codec fw requests w₁).api fine stays in
      record {
        is_ready = λ is_closed.
            ap (λ (a : Api). (readiness none is_closed a.state).0) same ∙ h.0 is_closed;
        exchange = ap (λ (a : Api). get_exchange a.state) same ∙ h.1;
        no_client = gone;
        not_ready = down;
      }

  -- A process whose start and end raise nothing: behind any requests, while it serves, the probe
  -- answers 200 exactly when aio_pika does not report the connection as closed, if the database
  -- answers, and a publication finds the exchange. At the end there is no HTTP client, and the probe
  -- answers 503, if a connection that `disconnect` found reported as closed stays so.
  pub lifespan_serves :
      {B : Type 0} (amqp : Amqp B) (t : Trouble)
      (so_far requests : List (HttpRequest × RequestDraws)) (closing : Closing)
      (client_fails : Option Exception) (db_error : Option String) (closed_at_end : Bool) (w : Site)
      (b : B)
      → (lifespan s codec fw amqp t requests closing client_fails w b).0 ≡ ok tt
      → StaysClosed closing closed_at_end
      → IsServed db_error closed_at_end
          (serve_requests s codec fw so_far (with_state (connect amqp s t w.api.state b).1.0 w))
          (lifespan s codec fw amqp t requests closing client_fails w b).1.0
  unfolding lifespan
  lifespan_serves amqp t so_far requests closing client_fails db_error closed_at_end w b fine
        stays =
      serve_until_ok so_far requests closing client_fails db_error closed_at_end
        (connect amqp s t w.api.state b) w (connect-Serves amqp s t w.api.state b) fine stays
