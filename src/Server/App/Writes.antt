-- ===== src/Server/App/Writes.antt =====
-- What a request can do to the tables.
use mathlib.Core.Path.{subst}
use unith_task.Prelude.{ℕ, sym, String, Option, inl, inr, Bool-cases}
use unith_task.Prelude.Result.{Result, ok, raised}
use unith_task.Config.{Settings}
use unith_task.Json.{Codec}
use unith_task.Db.{Database}
use unith_task.Schemas.{
  SubscriberCreate, SubscriberUpdate, is_valid_publish, valid_create, valid_update,
}
use unith_task.Api.Subscribers.{create_subscriber, patch_row, delete_subscriber}
use unith_task.Api.Subscribers.Atomic.{update_subscriber-database}
use unith_task.Api.Deliveries.{retry_delivery}
use unith_task.Server.Routes.{
  Endpoint, subscriber_create, subscriber_list, subscriber_get, subscriber_update,
  subscriber_delete, event_publish, event_get, delivery_list, delivery_retry, stats, metrics,
  liveness, ready,
}
use unith_task.Server.App.{
  HttpRequest, Args, Framework, RequestDraws, Site, tables_of, created_by, updated_by, call, handle,
}
use unith_task.Server.App.Cases.{reply_by-site, handle_cases}

-- A request leaves the tables alone, or is one of the four writing transactions.
pub data Writes (db : Database) : Database → Type 0 where
  nothing : Writes db db
  creates :
      (id : ℕ) (secret : String) (now : ℕ) (body : SubscriberCreate)
      → Writes db (create_subscriber id secret now body db).1
  amends : (id : ℕ) (body : SubscriberUpdate) (now : ℕ) → Writes db (patch_row id body now db).1
  removes : (id now : ℕ) → Writes db (delete_subscriber id now db).1
  retries : (id now updated : ℕ) → Writes db (retry_delivery id now updated db).1

module _ (codec : Codec) (netloc : String → Option String) (d : RequestDraws) where
  created_by-Writes :
      (r : Result SubscriberCreate) (w : Site)
      → Writes w.database (created_by codec netloc d r w).1.database
  unfolding created_by
  created_by-Writes (raised e) w = nothing
  created_by-Writes (ok b) w = creates d.new_id d.secret d.now b

  updated_by-Writes :
      (id : ℕ) (key : Option String) (r : Result SubscriberUpdate) (w : Site)
      → Writes w.database (updated_by codec netloc d id key r w).1.database
  unfolding updated_by
  updated_by-Writes id key (raised e) w = nothing
  updated_by-Writes id key (ok b) w =
      elim (update_subscriber-database id b key d.now d.mono d.stored_at (tables_of w)) [
        | inl e ↦ subst (Writes w.database) (sym e) (amends id b d.now)
        | inr e ↦ subst (Writes w.database) (sym e) nothing
      ]

  call-Writes :
      (e : Endpoint) (args : Args e) (w : Site)
      → Writes w.database (call codec netloc d e args w).1.database
  unfolding call Args
  call-Writes subscriber_create b w = created_by-Writes (valid_create netloc b) w
  call-Writes subscriber_update (id, key, b) w = updated_by-Writes id key (valid_update netloc b) w
  call-Writes subscriber_delete id w = removes id d.now
  call-Writes delivery_retry id w = retries id d.now d.updated
  call-Writes event_publish b w = elim (Bool-cases (is_valid_publish codec b)) [
    | inl fine ↦ rw (fine, call) nothing
    | inr bad ↦ rw (bad, call) nothing
  ]
  call-Writes subscriber_list x w = nothing
  call-Writes subscriber_get id w = nothing
  call-Writes event_get m w = nothing
  call-Writes delivery_list x w = nothing
  call-Writes stats x w = nothing
  call-Writes metrics x w = nothing
  call-Writes liveness x w = nothing
  call-Writes ready x w = nothing

module _ (s : Settings) (codec : Codec) (fw : Framework) where
  pub handle-Writes :
      (req : HttpRequest) (d : RequestDraws) (w : Site)
      → Writes w.database (handle s codec fw req d w).1.database
  handle-Writes req d w = elim (handle_cases s codec fw req d w) [
    | inl (reply, idle) ↦ rw idle nothing
    | inr (r, args, found, ran) ↦
        rw (ran, reply_by-site) (call-Writes codec fw.netloc d r.endpoint args w)
  ]
