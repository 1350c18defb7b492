-- ===== src/Server/Routes.antt =====
-- The routes that `create_app` of app/main.py registers, with app/api/router.py, the decorators of
-- app/api and app/metrics.py.
use unith_task.Prelude.{ℕ, String, List, [], ◌∷◌, ◌++◌, map, f_string}

pub data Method : Type 0 where
  get_method post_method patch_method delete_method : Method

-- The functions behind the routes.
pub data Endpoint : Type 0 where
  subscriber_create subscriber_list subscriber_get subscriber_update subscriber_delete : Endpoint
  event_publish event_get delivery_list delivery_retry stats : Endpoint
  metrics liveness ready : Endpoint

pub record Route : Type 0 where
  pub method : Method
  pub path : String
  pub endpoint : Endpoint
  -- status_code of the decorator, 200 where it has none
  pub status_code : ℕ

abbrev route : Method → String → Endpoint → ℕ → Route
route m p e n = record { method = m; path = p; endpoint = e; status_code = n }

-- include_router, and the prefix of a router on its own routes
abbrev with_prefix : String → Route → Route
with_prefix prefix r = record r { path = f_string (prefix ∷ r.path ∷ []) }

abbrev include_router : String → List Route → List Route
include_router prefix rs = map (with_prefix prefix) rs

abbrev subscribers_router : List Route
subscribers_router = include_router "/subscribers" (
    route post_method "" subscriber_create 201
    ∷ route get_method "" subscriber_list 200
    ∷ route get_method "/{subscriber_id}" subscriber_get 200
    ∷ route patch_method "/{subscriber_id}" subscriber_update 200
    ∷ route delete_method "/{subscriber_id}" subscriber_delete 204
    ∷ [])

abbrev events_router : List Route
events_router =
    route post_method "/events/publish" event_publish 202
    ∷ route get_method "/events/{message_id}" event_get 200
    ∷ []

abbrev deliveries_router : List Route
deliveries_router =
    route get_method "/deliveries" delivery_list 200
    ∷ route post_method "/deliveries/{delivery_id}/retry" delivery_retry 200
    ∷ route get_method "/pipeline/stats" stats 200
    ∷ []

abbrev api_router : List Route
api_router = include_router "/api/v1" (subscribers_router ++ events_router ++ deliveries_router)

abbrev metrics_router : List Route
metrics_router = route get_method "/metrics" metrics 200 ∷ []

-- The routes of `create_app`, in the order in which they are registered.
unfoldable pub app_routes : List Route
app_routes =
    api_router
    ++ metrics_router
    ++ route get_method "/health/live" liveness 200
      ∷ route get_method "/health/ready" ready 200
      ∷ []
