-- ===== src/Api/Subscribers/PatchCache.antt =====
-- The Idempotency-Key of PATCH /subscribers/{id}.
use unith_task.Prelude.{
  ℕ, ◌+◌, ◌<◌, ◌≡◌, refl, ap, sym, ◌∙◌, false, none, some, [], ◌∷◌, arith, String, if◌then◌else◌,
  str_eq_iff, is_empty, ltb,
}
use unith_task.Prelude.Result.{ok}
use unith_task.Db.{Database}
use unith_task.Db.Table.{where_rows}
use unith_task.Schemas.{SubscriberUpdate, SubscriberResponse}
use unith_task.Api.Subscribers.{
  Cache, patch_idempotency_ttl, is_fresh, cache_get, cache_set, get_cached_patch,
  cache_patch_result, SubscriberApi, update_subscriber, patch_row,
}

get-set :
    (key : String) (e : ℕ × SubscriberResponse) (c : Cache)
    → cache_get key (cache_set key e c) ≡ some e
unfolding cache_get cache_set
get-set key e [] = ground (arith, str_eq_iff key key)
get-set key e ((k, old) ∷ rest) = ground (arith, get-set key e rest, str_eq_iff key key)

-- A response that was stored is answered while it is younger than the time to live, and not later.
get-cache_patch_result :
    (key : String) (r : SubscriberResponse) (stored_at mono : ℕ) (c : Cache)
    → get_cached_patch key mono (cache_patch_result key r stored_at c)
      ≡ (if ltb mono (stored_at + patch_idempotency_ttl) then some r else none)
unfolding get_cached_patch cache_patch_result
get-cache_patch_result key r stored_at mono c =
    rw (get-set key (stored_at, r) (where_rows (is_fresh stored_at) c), get_cached_patch) refl

update_subscriber_first :
    (id : ℕ) (body : SubscriberUpdate) (key : String) (now mono stored_at : ℕ) (api : SubscriberApi)
    {r : SubscriberResponse} {db : Database}
    → is_empty key ≡ false
    → get_cached_patch key mono api.cache ≡ none
    → patch_row id body now api.database ≡ (ok r, db)
    → update_subscriber id body (some key) now mono stored_at api
      ≡ (ok r, record { database = db; cache = cache_patch_result key r stored_at api.cache })
unfolding update_subscriber
update_subscriber_first id body key now mono stored_at api given fresh done =
    rw (given, fresh, done, update_subscriber) refl

update_subscriber_hit :
    (id : ℕ) (body : SubscriberUpdate) (key : String) (now mono stored_at : ℕ) (api : SubscriberApi)
    {r : SubscriberResponse}
    → is_empty key ≡ false
    → get_cached_patch key mono api.cache ≡ some r
    → update_subscriber id body (some key) now mono stored_at api ≡ (ok r, api)
unfolding update_subscriber
update_subscriber_hit id body key now mono stored_at api given hit =
    rw (given, hit, update_subscriber) refl

-- Behind a first request with a key that succeeded, any request with the same key within the time to
-- live gets the first one's response and changes nothing, whatever its body and its subscriber are.
pub update_subscriber_again :
    (id id' : ℕ) (body body' : SubscriberUpdate) (key : String)
    (now mono stored_at now' mono' stored_at' : ℕ) (api : SubscriberApi) {r : SubscriberResponse}
    {db : Database}
    → is_empty key ≡ false
    → get_cached_patch key mono api.cache ≡ none
    → patch_row id body now api.database ≡ (ok r, db)
    → mono' < stored_at + patch_idempotency_ttl
    → let first = update_subscriber id body (some key) now mono stored_at api in
      (first.0 ≡ ok r)
      × (update_subscriber id' body' (some key) now' mono' stored_at' first.1 ≡ first)
update_subscriber_again id id' body body' key now mono stored_at now' mono' stored_at' api {r} {db}
      given fresh done within =
    let e =
      update_subscriber_first id body key now mono stored_at api {r = r} {db = db} given fresh
        done in
    (
      ap (λ p. p.0) e,
      ap (λ p. update_subscriber id' body' (some key) now' mono' stored_at' p.1) e
          ∙ update_subscriber_hit id' body' key now' mono' stored_at' _ given
              (ground (arith, get-cache_patch_result key r stored_at mono' api.cache))
          ∙ sym e,
    )
