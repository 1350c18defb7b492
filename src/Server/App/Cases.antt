-- ===== src/Server/App/Cases.antt =====
-- How a request can go.
use unith_task.Prelude.{◌≡◌, refl, ◌⊎◌, inl, inr, Option, none, some}
use unith_task.Prelude.Result.{Result, ok, raised}
use unith_task.Config.{Settings}
use unith_task.Json.{Codec}
use unith_task.Server.{Dispatched, too_large, passed_on, dispatch}
use unith_task.Server.Routes.{Route, app_routes}
use unith_task.Server.App.{
  HttpRequest, Args, Framework, RequestDraws, Site, Body, Reply, call, reply_by, run_args,
  run_route, pass, handle,
}

pub reply_by-site : (r : Route) (p : Result Body × Site) → (reply_by r p).1 ≡ p.1
reply_by-site r (ok b, w) = refl
reply_by-site r (raised e, w) = refl

module _ (s : Settings) (codec : Codec) (fw : Framework) (req : HttpRequest) (d : RequestDraws)
    (w : Site) where
  -- The function behind the route has run.
  abbrev Runs : Option Route → Reply × Site → Type 0
  Runs found p =
      (r : Route) × (args : Args r.endpoint) × (found ≡ some r)
      × (p ≡ reply_by r (call codec fw.netloc d r.endpoint args w))

  abbrev Goes : Option Route → Reply × Site → Type 0
  Goes found p = ((reply : Reply) × (p ≡ (reply, w))) ⊎ Runs found p

  run_args_cases :
      (r : Route) (args : Result (Args r.endpoint)) → Goes (some r) (run_args s codec fw d r args w)
  unfolding run_args
  run_args_cases r (raised e) = inl (_, refl)
  run_args_cases r (ok args) = inr (r, args, refl, refl)

  run_route_cases : (found : Option Route) → Goes found (run_route s codec fw req d found w)
  unfolding run_route
  run_route_cases none = inl (_, refl)
  run_route_cases (some r) = run_args_cases r (fw.arguments r.endpoint req)

  pass_cases : (r : Result Dispatched) → Goes (fw.find app_routes req) (pass s codec fw req d r w)
  unfolding pass
  pass_cases (raised e) = inl (_, refl)
  pass_cases (ok too_large) = inl (_, refl)
  pass_cases (ok passed_on) = run_route_cases (fw.find app_routes req)

  -- Either the process is as before, or the function behind the chosen route ran once.
  pub handle_cases :
      ((reply : Reply) × (handle s codec fw req d w ≡ (reply, w)))
      ⊎ ((r : Route) × (args : Args r.endpoint) × (fw.find app_routes req ≡ some r)
          × (handle s codec fw req d w ≡ reply_by r (call codec fw.netloc d r.endpoint args w)))
  unfolding handle
  handle_cases = pass_cases (dispatch s fw.parse_int req.content_length)
