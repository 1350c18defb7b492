-- ===== src/Server/App/Safety.antt =====
-- Requests that must not change anything.
use mathlib.Core.List.{Memᴰ}
use unith_task.Prelude.{
  arith, ◌≡◌, refl, inl, inr, ◌∙◌, String, Bool, true, false, Option, some, List, All,
}
use unith_task.Prelude.Apart.{All_at}
use unith_task.Config.{Settings}
use unith_task.Json.{Codec}
use unith_task.Server.Routes.{
  get_method, Endpoint, Route, subscriber_list, subscriber_get, event_get, delivery_list, stats,
  metrics, liveness, ready, app_routes,
}
use unith_task.Server.App.Cases.{reply_by-site, handle_cases}
use unith_task.Server.App.{HttpRequest, Args, Framework, RequestDraws, Site, call, handle}

-- What FastAPI documents of its routing: the route is one of the registered ones, of the request's
-- method.
pub record IsRouting (fw : Framework) : Type 0 where
  pub listed :
      (rs : List Route) (req : HttpRequest) (r : Route) → fw.find rs req ≡ some r → Memᴰ r rs
  pub same_method :
      (rs : List Route) (req : HttpRequest) (r : Route)
      → fw.find rs req ≡ some r
      → r.method ≡ req.method

-- The tables, the queue, the cache and the process state are as before.
pub record IsSame (w w' : Site) : Type 0 where
  pub database : w'.database ≡ w.database
  pub queue : w'.queue ≡ w.queue
  pub cache : w'.cache ≡ w.cache
  pub api : w'.api ≡ w.api

unchanged : (w : Site) → IsSame w w
unchanged w = record { database = refl; queue = refl; cache = refl; api = refl }

reads : Endpoint → Bool
reads subscriber_list = true
reads subscriber_get = true
reads event_get = true
reads delivery_list = true
reads stats = true
reads metrics = true
reads liveness = true
reads ready = true
reads _ = false

get_routes_read : All (λ r. r.method ≡ get_method → reads r.endpoint ≡ true) app_routes
unfolding app_routes reads
get_routes_read = ground arith

module _ (codec : Codec) (netloc : String → Option String) (d : RequestDraws) where
  call-IsSame :
      (e : Endpoint) (args : Args e) (w : Site)
      → reads e ≡ true
      → IsSame w (call codec netloc d e args w).1
  unfolding call reads Args
  call-IsSame subscriber_list args w h = unchanged w
  call-IsSame subscriber_get args w h = unchanged w
  call-IsSame event_get args w h = unchanged w
  call-IsSame delivery_list args w h = unchanged w
  call-IsSame stats args w h = unchanged w
  call-IsSame metrics args w h = record { database = refl; queue = refl; cache = refl; api = refl }
  call-IsSame liveness args w h = unchanged w
  call-IsSame ready args w h = unchanged w
  call-IsSame _ args w h = absurd cc

module _ (s : Settings) (codec : Codec) (fw : Framework) (law : IsRouting fw) where
  -- A GET request changes no table, no queue, no cached response and no process state.
  pub handle_get :
      (req : HttpRequest) (d : RequestDraws) (w : Site)
      → req.method ≡ get_method
      → IsSame w (handle s codec fw req d w).1
  handle_get req d w get = elim (handle_cases s codec fw req d w) [
    | inl (reply, idle) ↦ rw idle (unchanged w)
    | inr (r, args, found, ran) ↦
        rw (ran, reply_by-site)
          (call-IsSame codec fw.netloc d r.endpoint args w (
            All_at _ app_routes get_routes_read (law.listed app_routes req r found)
              (law.same_method app_routes req r found ∙ get)))
  ]
