-- ===== src/Server/App/Errors.antt =====
-- Requests that are not answered as their route says.
use unith_task.Prelude.{
  ℕ, ◌≡◌, ◌⊎◌, refl, sym, ◌∙◌, ap, String, Bool, true, false, Option, inl, inr, Bool-cases,
}
use unith_task.Prelude.Result.{Result, ok, raised, Rolls}
use unith_task.Config.{Settings}
use unith_task.Json.{Codec}
use unith_task.Schemas.{
  SubscriberCreate, SubscriberUpdate, is_valid_publish, valid_create, valid_update,
}
use unith_task.Api.Subscribers.{SubscriberApi, update_subscriber, delete_subscriber}
use unith_task.Api.Deliveries.{retry_delivery}
use unith_task.Api.Subscribers.Atomic.{delete_subscriber-Rolls, update_subscriber-Rolls}
use unith_task.Api.Deliveries.Retry.{retry_delivery-Rolls}
use unith_task.Db.{Database}
use unith_task.Server.App.Safety.{IsRouting, handle_get}
use unith_task.Server.Routes.{
  get_method, Endpoint, Route, subscriber_create, subscriber_list, subscriber_get,
  subscriber_update, subscriber_delete, event_publish, event_get, delivery_list, delivery_retry,
  stats, metrics, liveness, ready,
}
use unith_task.Server.App.Cases.{handle_cases}
use unith_task.Server.App.{
  HttpRequest, Args, Framework, RequestDraws, Site, Body, subscriber, Reply, done, answer,
  tables_of, put_tables, created_by, updated_by, call, reply_by, handle,
}

abbrev pub is_done : Reply → Bool
is_done (done code body) = true
is_done _ = false

abbrev Untouched : Site → Result Body × Site → Type 0
Untouched w (ok b, w') = Unit
Untouched w (raised e, w') = tables_of w' ≡ tables_of w

same_tables : (w w' : Site) (r : Result Body) → tables_of w' ≡ tables_of w → Untouched w (r, w')
same_tables w w' (ok b) h = tt
same_tables w w' (raised e) h = h

rows-Untouched :
    {A : Type 0} (f : A → Body) (w : Site) (p : Result A × Database)
    → Rolls w.database p
    → Untouched w (answer f p.0, record w { database = p.1 })
rows-Untouched f w (ok a, db) h = tt
rows-Untouched f w (raised e, db) h = λ i. record (tables_of w) { database = h i }

tables-Untouched :
    {A : Type 0} (f : A → Body) (w : Site) (p : Result A × SubscriberApi)
    → Rolls (tables_of w) p
    → Untouched w (answer f p.0, put_tables p.1 w)
tables-Untouched f w (ok a, t) h = tt
tables-Untouched f w (raised e, t) h = h

module _ (codec : Codec) (netloc : String → Option String) (d : RequestDraws) where
  created_by-Untouched :
      (r : Result SubscriberCreate) (w : Site) → Untouched w (created_by codec netloc d r w)
  unfolding created_by
  created_by-Untouched (ok b) w = tt
  created_by-Untouched (raised e) w = refl

  updated_by-Untouched :
      (id : ℕ) (key : Option String) (r : Result SubscriberUpdate) (w : Site)
      → Untouched w (updated_by codec netloc d id key r w)
  unfolding updated_by
  updated_by-Untouched id key (raised e) w = refl
  updated_by-Untouched id key (ok b) w =
      tables-Untouched subscriber w
        (update_subscriber id b key d.now d.mono d.stored_at (tables_of w))
        (update_subscriber-Rolls id b key d.now d.mono d.stored_at (tables_of w))

  call-Untouched :
      (e : Endpoint) (args : Args e) (w : Site) → Untouched w (call codec netloc d e args w)
  unfolding call Args
  call-Untouched subscriber_create b w = created_by-Untouched (valid_create netloc b) w
  call-Untouched subscriber_list x w = tt
  call-Untouched subscriber_get id w = same_tables w w _ refl
  call-Untouched subscriber_update (id, key, b) w =
      updated_by-Untouched id key (valid_update netloc b) w
  call-Untouched subscriber_delete id w =
      rows-Untouched _ w (delete_subscriber id d.now w.database)
        (delete_subscriber-Rolls id d.now w.database)
  call-Untouched event_publish b w = elim (Bool-cases (is_valid_publish codec b)) [
    | inl fine ↦ rw (fine, call) (same_tables w _ _ refl)
    | inr bad ↦ rw (bad, call) refl
  ]
  call-Untouched event_get m w = same_tables w w _ refl
  call-Untouched delivery_list (f, limit) w = same_tables w w _ refl
  call-Untouched delivery_retry id w =
      rows-Untouched _ w (retry_delivery id d.now d.updated w.database)
        (retry_delivery-Rolls id d.now d.updated w.database)
  call-Untouched stats x w = tt
  call-Untouched metrics x w = tt
  call-Untouched liveness x w = tt
  call-Untouched ready x w = tt

reply_by-tables :
    (r : Route) (w : Site) (p : Result Body × Site)
    → Untouched w p
    → is_done (reply_by r p).0 ≡ false
    → tables_of (reply_by r p).1 ≡ tables_of w
reply_by-tables r w (ok b, w') h e = absurd cc
reply_by-tables r w (raised x, w') h e = h

module _ (s : Settings) (codec : Codec) (fw : Framework) where
  handle_error :
      (req : HttpRequest) (d : RequestDraws) (w : Site)
      → is_done (handle s codec fw req d w).0 ≡ false
      → tables_of (handle s codec fw req d w).1 ≡ tables_of w
  handle_error req d w h = elim (handle_cases s codec fw req d w) [
    | inl (reply, idle) ↦ ap (λ p. tables_of p.1) idle
    | inr (r, args, found, ran) ↦
        ap (λ p. tables_of p.1) ran
        ∙ reply_by-tables r w _ (call-Untouched codec fw.netloc d r.endpoint args w)
            (sym (ap (λ p. is_done p.0) ran) ∙ h)
  ]

  -- A GET request changes no table and no cached response; and so does a request of any method that
  -- is answered by an error, at whichever place: the size guard, a missing route, arguments or a body
  -- that do not pass their checks, a missing row, a conflict, a broker that fails.
  pub handle_safe :
      (law : IsRouting fw) (req : HttpRequest) (d : RequestDraws) (w : Site)
      → (req.method ≡ get_method) ⊎ (is_done (handle s codec fw req d w).0 ≡ false)
      → tables_of (handle s codec fw req d w).1 ≡ tables_of w
  handle_safe law req d w (inr not_done) = handle_error req d w not_done
  handle_safe law req d w (inl get) =
      let same = handle_get s codec fw law req d w get in
      λ i. record { database = same.database i; cache = same.cache i }
