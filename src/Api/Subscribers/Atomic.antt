-- ===== src/Api/Subscribers/Atomic.antt =====
-- A request of app/api/subscribers.py that raises has written nothing.
use unith_task.Prelude.{
  ℕ, ◌≡◌, ◌⊎◌, refl, String, Option, none, some, inl, inr, Option-cases, Bool-cases, is_empty,
}
use unith_task.Prelude.Result.{Result, ok, raised, Rolls, Result-cases}
use unith_task.Db.{Database}
use unith_task.Schemas.{SubscriberUpdate, SubscriberResponse}
use unith_task.Api.Subscribers.{
  Cache, SubscriberApi, get_or_404, patch_row, get_cached_patch, store_patch, uncached,
  update_subscriber, delete_subscriber,
}

pub delete_subscriber-Rolls : (id now : ℕ) (db : Database) → Rolls db (delete_subscriber id now db)
unfolding delete_subscriber
delete_subscriber-Rolls id now db = elim (Result-cases (get_or_404 id db)) [
  | inl (x, e) ↦ rw (e, delete_subscriber) tt
  | inr (x, e) ↦ rw (e, delete_subscriber) refl
]

patch_row-Rolls :
    (id : ℕ) (body : SubscriberUpdate) (now : ℕ) (db : Database)
    → Rolls db (patch_row id body now db)
unfolding patch_row
patch_row-Rolls id body now db = elim (Result-cases (get_or_404 id db)) [
  | inl (x, e) ↦ rw (e, patch_row) tt
  | inr (x, e) ↦ rw (e, patch_row) refl
]

uncached-Rolls :
    (api : SubscriberApi) (p : Result SubscriberResponse × Database)
    → Rolls api.database p
    → Rolls api (uncached api p)
uncached-Rolls api (ok r, db) h = tt
uncached-Rolls api (raised e, db) h = λ i. record api { database = h i }

store_patch-Rolls :
    (key : String) (stored_at : ℕ) (api : SubscriberApi) (p : Result SubscriberResponse × Database)
    → Rolls api.database p
    → Rolls api (store_patch key stored_at api.cache p)
store_patch-Rolls key stored_at api (ok r, db) h = tt
store_patch-Rolls key stored_at api (raised e, db) h = λ i. record api { database = h i }

pub update_subscriber-Rolls :
    (id : ℕ) (body : SubscriberUpdate) (key : Option String) (now mono stored_at : ℕ)
    (api : SubscriberApi)
    → Rolls api (update_subscriber id body key now mono stored_at api)
unfolding update_subscriber
update_subscriber-Rolls id body none now mono stored_at api =
    uncached-Rolls api _ (patch_row-Rolls id body now api.database)
update_subscriber-Rolls id body (some key) now mono stored_at api =
    elim (Bool-cases (is_empty key)) [
      | inl off ↦
          rw (off, update_subscriber)
            (uncached-Rolls api _ (patch_row-Rolls id body now api.database))
      | inr on ↦ elim (Option-cases (get_cached_patch key mono api.cache)) [
        | inr (r, cached) ↦ rw (on, cached, update_subscriber) tt
        | inl fresh ↦
            rw (on, fresh, update_subscriber)
              (store_patch-Rolls key stored_at api _ (patch_row-Rolls id body now api.database))
      ]
    ]

store_patch-database :
    (key : String) (stored_at : ℕ) (cache : Cache) (p : Result SubscriberResponse × Database)
    → (store_patch key stored_at cache p).1.database ≡ p.1
store_patch-database key stored_at cache (ok r, db) = refl
store_patch-database key stored_at cache (raised e, db) = refl

-- A PATCH makes its change, or is answered from the cache.
pub update_subscriber-database :
    (id : ℕ) (body : SubscriberUpdate) (key : Option String) (now mono stored_at : ℕ)
    (api : SubscriberApi)
    → let after = (update_subscriber id body key now mono stored_at api).1.database in
      (after ≡ (patch_row id body now api.database).1) ⊎ (after ≡ api.database)
unfolding update_subscriber
update_subscriber-database id body none now mono stored_at api = inl refl
update_subscriber-database id body (some key) now mono stored_at api =
    elim (Bool-cases (is_empty key)) [
      | inl off ↦ inl (rw (off, update_subscriber) refl)
      | inr on ↦ elim (Option-cases (get_cached_patch key mono api.cache)) [
        | inr (r, cached) ↦ inr (rw (on, cached, update_subscriber) refl)
        | inl fresh ↦
            inl (rw (on, fresh, update_subscriber) (store_patch-database key stored_at api.cache _))
      ]
    ]
