-- ===== src/Api/Subscribers.antt =====
-- app/api/subscribers.py: the CRUD endpoints and the in-process cache of PATCH responses.
-- Monotonic times are in milliseconds.
pub mod Crud
pub mod Atomic
pub mod Permanence
pub mod PatchCache
pub mod Endpoints
use unith_task.Prelude.{
  ℕ, ◌+◌, String, Bool, true, false, not, ◌&&◌, Option, none, some, List, [], ◌∷◌, ◌++◌, map, ◌==◌,
  ltb, leb, if◌then◌else◌, str_eq, is_empty,
}
use unith_task.Prelude.Result.{Result, ok, raised, http_exception}
use unith_task.Db.{Subscriber, Database, is_none, is_subscriber}
use unith_task.Db.Table.{where_rows, update_rows, find_row}
use unith_task.Db.Order.{order_by}
use unith_task.Schemas.{
  SubscriberCreate, SubscriberUpdate, SubscriberResponse, SubscriberCreatedResponse,
  to_subscriber_response, valid_create, valid_update,
}

-- A dict of responses, each with the time at which it was stored.
abbrev pub Cache : Type 0
Cache = List (String × (ℕ × SubscriberResponse))

abbrev pub patch_idempotency_ttl : ℕ
patch_idempotency_ttl = 60000

-- now - ts < TTL
abbrev pub is_fresh : ℕ → String × (ℕ × SubscriberResponse) → Bool
is_fresh now (k, (ts, r)) = ltb now (ts + patch_idempotency_ttl)

unfoldable pub cache_get : String → Cache → Option (ℕ × SubscriberResponse)
cache_get key [] = none
cache_get key ((k, e) ∷ rest) = if str_eq k key then some e else cache_get key rest

unfoldable pub cache_set : String → ℕ × SubscriberResponse → Cache → Cache
cache_set key e [] = (key, e) ∷ []
cache_set key e ((k, old) ∷ rest) =
    if str_eq k key then (k, e) ∷ rest else (k, old) ∷ cache_set key e rest

-- `_get_cached_patch`
unfoldable pub get_cached_patch : String → ℕ → Cache → Option SubscriberResponse
unfolding cache_get
get_cached_patch key now cache = elim (cache_get key cache) [
  | none ↦ none
  | some (ts, r) ↦ if is_fresh now (key, (ts, r)) then some r else none
]

-- `_cache_patch_result`
unfoldable pub cache_patch_result : String → SubscriberResponse → ℕ → Cache → Cache
unfolding cache_set
cache_patch_result key result now cache =
    cache_set key (now, result) (where_rows (is_fresh now) cache)

pub record SubscriberApi : Type 0 where
  pub database : Database
  pub cache : Cache

unfoldable pub create_subscriber :
    ℕ → String → ℕ → SubscriberCreate → Database → SubscriberCreatedResponse × Database
create_subscriber id secret now body db =
    let sub : Subscriber = record {
      id = id;
      name = body.name;
      endpoint = body.endpoint;
      secret = secret;
      is_active = true;
      created_at = now;
      updated_at = now;
      deleted_at = none;
    } in
    (
      record { response = to_subscriber_response sub; secret = secret },
      record db { subscribers = db.subscribers ++ sub ∷ [] },
    )

unfoldable pub list_subscribers : Database → List SubscriberResponse
list_subscribers db = map to_subscriber_response (
    order_by (λ (s : Subscriber). s.created_at)
      (where_rows (λ s. is_none s.deleted_at) db.subscribers))

abbrev pub is_present : ℕ → Subscriber → Bool
is_present id s = s.id == id && is_none s.deleted_at

-- `_get_or_404`
unfoldable pub get_or_404 : ℕ → Database → Result Subscriber
get_or_404 id db = elim (find_row (is_present id) db.subscribers) [
  | none ↦ raised (http_exception 404 "Subscriber not found")
  | some sub ↦ ok sub
]

unfoldable pub get_subscriber : ℕ → Database → Result SubscriberResponse
unfolding get_or_404
get_subscriber id db = elim (get_or_404 id db) [
  | ok sub ↦ ok (to_subscriber_response sub)
  | raised e ↦ raised e
]

abbrev pub or_old {ℓ} : {A : Type ℓ} → Option A → A → A
or_old none old = old
or_old (some new) old = new

abbrev pub patched : SubscriberUpdate → ℕ → Subscriber → Subscriber
patched body now s = record s {
  endpoint = or_old body.endpoint s.endpoint;
  is_active = or_old body.is_active s.is_active;
  updated_at = now;
}

abbrev update_subscribers : (Subscriber → Bool) → (Subscriber → Subscriber) → Database → Database
update_subscribers p f db = record db { subscribers = update_rows p f db.subscribers }

-- `update_subscriber` behind the cache: read, change, commit.
unfoldable pub patch_row :
    ℕ → SubscriberUpdate → ℕ → Database → Result SubscriberResponse × Database
unfolding get_or_404
patch_row id body now db = elim (get_or_404 id db) [
  | raised e ↦ (raised e, db)
  | ok sub ↦ (
    ok (to_subscriber_response (patched body now sub)),
    update_subscribers (is_subscriber id) (patched body now) db,
  )
]

-- The response is stored at `stored_at`, after the commit.
abbrev store_patch :
    String
    → ℕ
    → Cache
    → Result SubscriberResponse × Database
    → Result SubscriberResponse × SubscriberApi
store_patch key stored_at cache (raised e, db) = (raised e, record { database = db; cache = cache })
store_patch key stored_at cache (ok r, db) =
    (ok r, record { database = db; cache = cache_patch_result key r stored_at cache })

abbrev uncached :
    SubscriberApi → Result SubscriberResponse × Database → Result SubscriberResponse × SubscriberApi
uncached api (r, db) = (r, record api { database = db })

-- A header that is missing or empty turns the cache off.
unfoldable pub update_subscriber :
    ℕ
    → SubscriberUpdate
    → Option String
    → (now mono stored_at : ℕ) → SubscriberApi
    → Result SubscriberResponse × SubscriberApi
unfolding patch_row
update_subscriber id body none now mono stored_at api =
    uncached api (patch_row id body now api.database)
update_subscriber id body (some key) now mono stored_at api =
    if is_empty key
    then uncached api (patch_row id body now api.database)
    else elim (get_cached_patch key mono api.cache) [
      | some cached ↦ (ok cached, api)
      | none ↦ store_patch key stored_at api.cache (patch_row id body now api.database)
    ]

abbrev pub deleted : ℕ → Subscriber → Subscriber
deleted now s = record s { deleted_at = some now; is_active = false; updated_at = now }

unfoldable pub delete_subscriber : ℕ → ℕ → Database → Result (Unit {0}) × Database
unfolding get_or_404
delete_subscriber id now db = elim (get_or_404 id db) [
  | raised e ↦ (raised e, db)
  | ok sub ↦ (ok tt, update_subscribers (is_subscriber id) (deleted now) db)
]
