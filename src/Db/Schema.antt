-- ===== src/Db/Schema.antt =====
-- app/db/session.py: `create_all` and the column migrations. A schema lists the tables, each with the
-- names of its columns.
pub mod Bootstrap
use unith_task.Prelude.{
  ℕ, String, Bool, true, false, ◌||◌, Option, none, some, List, [], ◌∷◌, ◌++◌, str_eq,
  if◌then◌else◌,
}
use unith_task.Prelude.Result.{Result, ok, raised, Exception, exception, ◌>>=◌}

abbrev pub Schema : Type 0
Schema = List (String × List String)

unfoldable pub columns_of : String → Schema → Option (List String)
columns_of t [] = none
columns_of t ((u, cs) ∷ rest) = if str_eq u t then some cs else columns_of t rest

abbrev pub has_column : String → List String → Bool
has_column c [] = false
has_column c (d ∷ ds) = str_eq d c || has_column c ds

-- Base.metadata of app/db/models.py.
abbrev pub metadata : Schema
metadata =
    (
      "subscribers",
      "id" ∷ "name" ∷ "endpoint" ∷ "secret" ∷ "is_active" ∷ "created_at" ∷ "updated_at"
          ∷ "deleted_at" ∷ [],
    )
    ∷ (
      "idempotency_keys",
      "message_id" ∷ "event_type" ∷ "raw_payload" ∷ "enriched_payload" ∷ "status" ∷ "received_at"
          ∷ "enriched_at" ∷ "dispatched_at" ∷ "error" ∷ "reconcile_count" ∷ [],
    )
    ∷ (
      "delivery_attempts",
      "id" ∷ "message_id" ∷ "subscriber_id" ∷ "status" ∷ "attempt_count" ∷ "next_attempt_at"
          ∷ "last_attempt_at" ∷ "last_http_status" ∷ "last_error" ∷ "created_at" ∷ "updated_at"
          ∷ [],
    )
    ∷ []

-- ALTER TABLE … ADD COLUMN IF NOT EXISTS …
pub data Migration : Type 0 where
  add_column : (table column : String) → Migration

abbrev pub column_migrations : List Migration
column_migrations = add_column "idempotency_keys" "reconcile_count" ∷ []

abbrev pub with_column : String → List String → List String
with_column c cs = if has_column c cs then cs else cs ++ c ∷ []

unfoldable pub alter_table : String → String → Schema → Schema
alter_table t c [] = []
alter_table t c ((u, cs) ∷ rest) =
    (u, if str_eq u t then with_column c cs else cs) ∷ alter_table t c rest

unfoldable pub migrate : Migration → Schema → Result Schema
migrate (add_column t c) schema = elim (columns_of t schema) [
  | none ↦ raised (exception "UndefinedTable")
  | some cs ↦ ok (alter_table t c schema)
]

-- `_apply_migrations`
unfoldable pub apply_migrations : List Migration → Schema → Result Schema
apply_migrations [] schema = ok schema
apply_migrations (m ∷ ms) schema = migrate m schema >>= apply_migrations ms

in_transaction : Schema → Result Schema → Result (Unit {0}) × Schema
in_transaction old (ok new) = (ok tt, new)
in_transaction old (raised e) = (raised e, old)

-- `create_all`, in one transaction; `create_tables` is SQLAlchemy's.
unfoldable pub create_all : (Schema → Schema → Schema) → Schema → Result (Unit {0}) × Schema
unfolding in_transaction
create_all create_tables schema =
    in_transaction schema (apply_migrations column_migrations (create_tables metadata schema))
