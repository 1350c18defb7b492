-- ===== src/Server/App/Urls.antt =====
-- The endpoints that requests can store.
use unith_task.Prelude.{ℕ, ◌≡◌, refl, String, Option, List, [], ◌∷◌, inl, inr, Bool-cases}
use unith_task.Prelude.Result.{Result, ok, raised}
use unith_task.Config.{Settings}
use unith_task.Json.{Codec}
use unith_task.Schemas.{
  SubscriberCreate, SubscriberUpdate, is_valid_publish, valid_create, valid_update,
}
use unith_task.Api.Subscribers.Endpoints.{
  HasUrls, valid_create_ok, valid_update_ok, create_subscriber-HasUrls, delete_subscriber-HasUrls,
  update_subscriber-HasUrls,
}
use unith_task.Api.Deliveries.Retry.{retry_delivery-subscribers}
use unith_task.Server.Routes.{
  Endpoint, subscriber_create, subscriber_list, subscriber_get, subscriber_update,
  subscriber_delete, event_publish, event_get, delivery_list, delivery_retry, stats, metrics,
  liveness, ready,
}
use unith_task.Server.App.{
  HttpRequest, Args, Framework, RequestDraws, Site, tables_of, created_by, updated_by, call, handle,
  serve_requests,
}
use unith_task.Server.App.Cases.{reply_by-site, handle_cases}

module _ (codec : Codec) (netloc : String → Option String) (d : RequestDraws) where
  created_by-HasUrls :
      (b : SubscriberCreate) (r : Result SubscriberCreate) (w : Site)
      → valid_create netloc b ≡ r
      → HasUrls netloc w.database
      → HasUrls netloc (created_by codec netloc d r w).1.database
  unfolding created_by
  created_by-HasUrls b (raised e) w checked h = h
  created_by-HasUrls b (ok c) w checked h =
      create_subscriber-HasUrls netloc d.new_id d.secret d.now c w.database
        (valid_create_ok netloc b c checked) h

  updated_by-HasUrls :
      (id : ℕ) (key : Option String) (b : SubscriberUpdate) (r : Result SubscriberUpdate) (w : Site)
      → valid_update netloc b ≡ r
      → HasUrls netloc w.database
      → HasUrls netloc (updated_by codec netloc d id key r w).1.database
  unfolding updated_by
  updated_by-HasUrls id key b (raised e) w checked h = h
  updated_by-HasUrls id key b (ok c) w checked h =
      update_subscriber-HasUrls netloc id c key d.now d.mono d.stored_at (tables_of w)
        (valid_update_ok netloc b c checked) h

  call-HasUrls :
      (e : Endpoint) (args : Args e) (w : Site)
      → HasUrls netloc w.database
      → HasUrls netloc (call codec netloc d e args w).1.database
  unfolding call Args
  call-HasUrls subscriber_create b w h = created_by-HasUrls b (valid_create netloc b) w refl h
  call-HasUrls subscriber_update (id, key, b) w h =
      updated_by-HasUrls id key b (valid_update netloc b) w refl h
  call-HasUrls subscriber_delete id w h = delete_subscriber-HasUrls netloc id d.now w.database h
  call-HasUrls delivery_retry id w h =
      rw (retry_delivery-subscribers id d.now d.updated w.database) h
  call-HasUrls event_publish b w h = elim (Bool-cases (is_valid_publish codec b)) [
    | inl fine ↦ rw (fine, call) h
    | inr bad ↦ rw (bad, call) h
  ]
  call-HasUrls subscriber_list x w h = h
  call-HasUrls subscriber_get id w h = h
  call-HasUrls event_get m w h = h
  call-HasUrls delivery_list x w h = h
  call-HasUrls stats x w h = h
  call-HasUrls metrics x w h = h
  call-HasUrls liveness x w h = h
  call-HasUrls ready x w h = h

module _ (s : Settings) (codec : Codec) (fw : Framework) where
  handle-HasUrls :
      (req : HttpRequest) (d : RequestDraws) (w : Site)
      → HasUrls fw.netloc w.database
      → HasUrls fw.netloc (handle s codec fw req d w).1.database
  handle-HasUrls req d w h = elim (handle_cases s codec fw req d w) [
    | inl (reply, idle) ↦ rw idle h
    | inr (r, args, found, ran) ↦
        rw (ran, reply_by-site) (call-HasUrls codec fw.netloc d r.endpoint args w h)
  ]

  -- Whatever HTTP requests arrive, with valid bodies or not, cached or not, and whichever routes they
  -- meet: if every stored endpoint of a subscriber is an http or https URL with a host, it stays so.
  pub serve_requests-HasUrls :
      (requests : List (HttpRequest × RequestDraws)) (w : Site)
      → HasUrls fw.netloc w.database
      → HasUrls fw.netloc (serve_requests s codec fw requests w).database
  unfolding serve_requests
  serve_requests-HasUrls [] w h = h
  serve_requests-HasUrls ((req, d) ∷ rest) w h =
      serve_requests-HasUrls rest (handle s codec fw req d w).1 (handle-HasUrls req d w h)
