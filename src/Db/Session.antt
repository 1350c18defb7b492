-- ===== src/Db/Session.antt =====
-- app/db/session.py: `get_session`, which commits or rolls back, and `get_db`, which does neither.
use unith_task.Prelude.{ℕ, ◌≡◌, refl, String, Bool, true, false, Option, none, some}
use unith_task.Config.{Settings}
use unith_task.Prelude.Result.{Result, ok, raised, Exception}

-- What the database has, and what the open transaction has made of it.
pub record Session {ℓ} (D : Type ℓ) : Type ℓ where
  pub committed : D
  pub pending : D

module _ {ℓ} {D : Type ℓ} where
  abbrev pub begin : D → Session D
  begin d = record { committed = d; pending = d }

  abbrev pub execute : (D → D) → Session D → Session D
  execute f session = record session { pending = f session.pending }

module _ {ℓ κ} {D : Type ℓ} {A : Type κ} where
  ended : Option Exception → Result A × Session D → Result A × D
  ended commit_fails (raised e, session) = (raised e, session.committed)
  ended none (ok a, session) = (ok a, session.pending)
  ended (some e) (ok a, session) = (raised e, session.committed)

  -- The body of the `async with`, and what `commit` raises.
  unfoldable pub get_session :
      Option Exception → (Session D → Result A × Session D) → D → Result A × D
  unfolding ended
  get_session commit_fails body d = ended commit_fails (body (begin d))

  without_commit : Result A × Session D → Result A × D
  without_commit (r, session) = (r, session.committed)

  -- A handler commits itself; what it has not committed is lost when the session closes.
  unfoldable pub get_db : (Session D → Result A × Session D) → D → Result A × D
  unfolding without_commit
  get_db body d = without_commit (body (begin d))

module _ {ℓ κ} {D : Type ℓ} {A : Type κ} where
  abbrev stored_as : Option Exception → Result A → D → D → Result A × D
  stored_as commit_fails (raised e) old new = (raised e, old)
  stored_as none (ok a) old new = (ok a, new)
  stored_as (some e) (ok a) old new = (raised e, old)

  -- All of a body's writes are stored, if it and the commit return, or none of them is. Under
  -- `get_db` none is.
  pub get_session_atomic :
      (commit_fails : Option Exception) (f g : D → D) (r : Result A) (d : D)
      → let body : Session D → Result A × Session D =
          λ session. (r, execute g (execute f session)) in
        (get_session commit_fails body d ≡ stored_as commit_fails r d (g (f d)))
        × (get_db body d ≡ (r, d))
  unfolding get_session get_db
  get_session_atomic commit_fails f g (raised e) d = (refl, refl)
  get_session_atomic none f g (ok a) d = (refl, refl)
  get_session_atomic (some e) f g (ok a) d = (refl, refl)

-- What `create_async_engine` is given: the settings, and the constants beside them.
pub record EngineOptions : Type 0 where
  pub url : String
  pub echo : Bool
  pub pool_pre_ping : Bool
  pub pool_size : ℕ
  pub max_overflow : ℕ
  pub pool_timeout_ms : ℕ

engine_options : Settings → EngineOptions
engine_options s = record {
  url = s.database_url;
  echo = false;
  pool_pre_ping = true;
  pool_size = s.db_pool_size;
  max_overflow = s.db_max_overflow;
  pool_timeout_ms = s.db_pool_timeout_ms;
}
