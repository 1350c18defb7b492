-- ===== src/Api/Subscribers/Endpoints.antt =====
-- The endpoints that requests can store.
use mathlib.Core.Path.{subst}
use unith_task.Prelude.{
  ℕ, ◌≡◌, refl, inl, inr, String, true, false, ◌&&◌, ◌||◌, Option, none, some, All, All-append,
  arith, leb, is_empty, begins_with, text_length, Option-cases, Bool-cases,
}
use unith_task.Prelude.Result.{Result, ok, raised, Result-cases}
use unith_task.Db.{Subscriber, Database, is_subscriber}
use unith_task.Db.Table.{All-update_rows}
use unith_task.Schemas.{
  SubscriberCreate, SubscriberUpdate, SubscriberResponse, validate_http_url, valid_create,
  endpoint_or_none, valid_update,
}
use unith_task.Api.Subscribers.{
  Cache, SubscriberApi, get_or_404, get_cached_patch, or_old, patched, deleted, create_subscriber,
  patch_row, delete_subscriber, store_patch, update_subscriber,
}

-- An http or https URL with a host, as urlparse sees it.
pub record IsHttpUrl (netloc : String → Option String) (v : String) : Type 0 where
  pub scheme : begins_with v "http://" || begins_with v "https://" ≡ true
  pub host : String
  pub parsed : netloc v ≡ some host
  pub not_empty : is_empty host ≡ false

ok_inj : (o p : Option String) → ok o ≡ ok p → o ≡ p
ok_inj o p h = cc h

module _ (netloc : String → Option String) where
  -- Every subscriber of the table has such an endpoint.
  abbrev pub HasUrls : Database → Type 0
  HasUrls db = All (λ s. IsHttpUrl netloc s.endpoint) db.subscribers

  validate_http_url_ok :
      (v u : String) → validate_http_url netloc v ≡ ok u → (u ≡ v) × IsHttpUrl netloc v
  unfolding validate_http_url
  validate_http_url_ok v u h =
      elim (Bool-cases (begins_with v "http://" || begins_with v "https://")) [
        | inr no_scheme ↦ absurd (ground (arith, h, no_scheme))
        | inl scheme ↦ elim (Option-cases (netloc v)) [
          | inl bad ↦ absurd (ground (arith, h, scheme, bad))
          | inr (host, parsed) ↦ elim (Bool-cases (is_empty host)) [
            | inl no_host ↦ absurd (ground (arith, h, scheme, parsed, no_host))
            | inr full ↦ (
              ground (arith, h, scheme, parsed, full),
              record { scheme = scheme; host = host; parsed = parsed; not_empty = full },
            )
          ]
        ]
      ]

  pub valid_create_ok :
      (b c : SubscriberCreate) → valid_create netloc b ≡ ok c → IsHttpUrl netloc c.endpoint
  unfolding valid_create
  valid_create_ok b c h =
      elim (Bool-cases (leb 1 (text_length b.name) && leb (text_length b.name) 255)) [
        | inr bad ↦ absurd (ground (arith, h, bad))
        | inl fits ↦ elim (Result-cases (validate_http_url netloc b.endpoint)) [
          | inr (e, no_url) ↦ absurd (ground (arith, h, fits, no_url))
          | inl (u, checked) ↦
              let (same, url) = validate_http_url_ok b.endpoint u checked in
              let stored : c.endpoint ≡ u = ground (arith, h, fits, checked) in
              rw (stored, same) url
        ]
      ]

  -- A patch that sets an endpoint sets such a one.
  abbrev pub SetsUrl : Option String → Type 0
  SetsUrl none = Unit
  SetsUrl (some v) = IsHttpUrl netloc v

  endpoint_or_none_ok : (o p : Option String) → endpoint_or_none netloc o ≡ ok p → SetsUrl p
  endpoint_or_none_ok none p h = subst SetsUrl (ok_inj none p h) tt
  endpoint_or_none_ok (some v) p h = elim (Result-cases (validate_http_url netloc v)) [
    | inr (e, no_url) ↦ absurd (ground (arith, h, no_url))
    | inl (u, checked) ↦
        let (same, url) = validate_http_url_ok v u checked in
        let set : some v ≡ p = ground (arith, h, checked, same) in subst SetsUrl set url
  ]

  pub valid_update_ok : (b c : SubscriberUpdate) → valid_update netloc b ≡ ok c → SetsUrl c.endpoint
  unfolding valid_update
  valid_update_ok b c h = elim (Result-cases (endpoint_or_none netloc b.endpoint)) [
    | inr (e, bad) ↦ absurd (ground (arith, h, bad))
    | inl (p, checked) ↦
        let set : p ≡ c.endpoint = ground (arith, h, checked) in
        subst SetsUrl set (endpoint_or_none_ok b.endpoint p checked)
  ]

  or_old-IsHttpUrl :
      (o : Option String) (old : String)
      → SetsUrl o
      → IsHttpUrl netloc old
      → IsHttpUrl netloc (or_old o old)
  or_old-IsHttpUrl none old new h = h
  or_old-IsHttpUrl (some v) old new h = new

  pub create_subscriber-HasUrls :
      (id : ℕ) (secret : String) (now : ℕ) (body : SubscriberCreate) (db : Database)
      → IsHttpUrl netloc body.endpoint
      → HasUrls db
      → HasUrls (create_subscriber id secret now body db).1
  unfolding create_subscriber
  create_subscriber-HasUrls id secret now body db url h =
      All-append (λ (s : Subscriber). IsHttpUrl netloc s.endpoint) db.subscribers _ h (url, tt)

  patch_row-HasUrls :
      (id : ℕ) (body : SubscriberUpdate) (now : ℕ) (db : Database)
      → SetsUrl body.endpoint
      → HasUrls db
      → HasUrls (patch_row id body now db).1
  unfolding patch_row
  patch_row-HasUrls id body now db new h = elim (Result-cases (get_or_404 id db)) [
    | inr (e, gone) ↦ rw (gone, patch_row) h
    | inl (sub, found) ↦
        rw (found, patch_row)
          (All-update_rows (λ s. IsHttpUrl netloc s.endpoint) (is_subscriber id) (patched body now)
            db.subscribers (λ s hit url. or_old-IsHttpUrl body.endpoint s.endpoint new url) h)
  ]

  pub delete_subscriber-HasUrls :
      (id now : ℕ) (db : Database) → HasUrls db → HasUrls (delete_subscriber id now db).1
  unfolding delete_subscriber
  delete_subscriber-HasUrls id now db h = elim (Result-cases (get_or_404 id db)) [
    | inr (e, gone) ↦ rw (gone, delete_subscriber) h
    | inl (sub, found) ↦
        rw (found, delete_subscriber)
          (All-update_rows (λ s. IsHttpUrl netloc s.endpoint) (is_subscriber id) (deleted now)
            db.subscribers (λ s hit url. url) h)
  ]

  store_patch-database :
      (key : String) (t : ℕ) (cache : Cache) (p : Result SubscriberResponse × Database)
      → (store_patch key t cache p).1.database ≡ p.1
  store_patch-database key t cache (raised e, db) = refl
  store_patch-database key t cache (ok r, db) = refl

  pub update_subscriber-HasUrls :
      (id : ℕ) (body : SubscriberUpdate) (key : Option String) (now mono stored_at : ℕ)
      (api : SubscriberApi)
      → SetsUrl body.endpoint
      → HasUrls api.database
      → HasUrls (update_subscriber id body key now mono stored_at api).1.database
  unfolding update_subscriber
  update_subscriber-HasUrls id body none now mono stored_at api new h =
      patch_row-HasUrls id body now api.database new h
  update_subscriber-HasUrls id body (some key) now mono stored_at api new h =
      elim (Bool-cases (is_empty key)) [
        | inl off ↦ rw (off, update_subscriber) (patch_row-HasUrls id body now api.database new h)
        | inr on ↦ elim (Option-cases (get_cached_patch key mono api.cache)) [
          | inr (r, cached) ↦ rw (on, cached, update_subscriber) h
          | inl fresh ↦
              rw (on, fresh, update_subscriber)
                (rw
                  (store_patch-database key stored_at api.cache
                    (patch_row id body now api.database))
                  (patch_row-HasUrls id body now api.database new h))
        ]
      ]
