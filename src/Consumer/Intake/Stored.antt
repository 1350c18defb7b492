-- ===== src/Consumer/Intake/Stored.antt =====
-- The transaction of an intake, for an id that is stored and for a new one.
use unith_task.Prelude.{
  ℕ, suc, ◌≤◌, ◌≡◌, refl, String, Bytes, Bool, true, false, Option, none, some, [], ◌∷◌, ◌++◌,
  length, ap, ◌∙◌, ltb, ◌⊎◌, inl, inr, Bool-cases, arith, str_eq, str_eq_iff, if◌then◌else◌,
}
use unith_task.Prelude.Result.{Result, ok, raised, exception}
use unith_task.Config.{Settings}
use unith_task.Json.{Value, Codec}
use unith_task.Db.{IdempotencyKey, Database, is_live, has_key, find_key}
use unith_task.Db.Table.{where_rows, find_row, find_row-append}
use unith_task.Consumer.Intake.{
  Consumer, IntakeEnv, Event, Intake, too_large, invalid_json, refused, duplicate, accepted,
  new_key, attempts_for, parse_event, insert_row, insert_idempotency_key, create_delivery_attempts,
  store_event, commit_event, receive, take_event, decode,
}

-- A body within the limit that decodes to an event is stored as that event.
pub receive_event :
    (s : Settings) (codec : Codec) (env : IntakeEnv) (body : Bytes) (c : Consumer) {v : Value}
    {e : Event}
    → length body ≤ s.consumer_max_message_bytes
    → codec.loads body ≡ some v
    → parse_event env.new_message_id v ≡ ok e
    → receive s codec env body c ≡ store_event env e c
unfolding receive decode take_event
receive_event s codec env body c {v} {e} small loaded parsed =
    ground (arith, ap (λ o. decode env o c) loaded, ap (λ r. take_event env r c) parsed)

-- The INSERT of the intake has a value for every NOT NULL column.
abbrev pub IsMigrated : Database → Type 0
IsMigrated db = db.has_count_default ≡ true

insert_ready :
    (env : IntakeEnv) (e : Event) (db : Database)
    → IsMigrated db
    → insert_idempotency_key env.now e db ≡ ok (insert_row env.now e db)
unfolding insert_idempotency_key
insert_ready env e db ready =
    ap (λ b. if b then ok (insert_row env.now e db) else raised (exception "NotNullViolation"))
      ready

insert_known :
    (env : IntakeEnv) (e : Event) (db : Database) {k : IdempotencyKey}
    → IsMigrated db
    → find_key e.message_id db ≡ some k
    → insert_idempotency_key env.now e db ≡ ok (none, db)
unfolding insert_row
insert_known env e db ready known = insert_ready env e db ready ∙ ap ok (rw (known, insert_row))

abbrev pub is_accepted : Intake → Bool
is_accepted (accepted e) = true
is_accepted _ = false

-- Without the server default, no event is stored.
pub store_event_fresh :
    (env : IntakeEnv) (e : Event) (c : Consumer)
    → c.database.has_count_default ≡ false
    → store_event env e c ≡ (refused, c)
unfolding store_event insert_idempotency_key
store_event_fresh env e c fresh = rw (fresh, store_event, insert_idempotency_key) refl

take_event_cases :
    (env : IntakeEnv) (r : Result Event) (c : Consumer)
    → ((i : Intake) × (take_event env r c ≡ (i, c)) × (is_accepted i ≡ false))
      ⊎ ((e : Event) × IsMigrated c.database × (take_event env r c ≡ store_event env e c))
unfolding take_event
take_event_cases env (raised x) c = inl (refused, refl, refl)
take_event_cases env (ok e) c = elim (Bool-cases c.database.has_count_default) [
  | inl ready ↦ inr (e, ready, refl)
  | inr fresh ↦ inl (refused, store_event_fresh env e c fresh, refl)
]

decode_cases :
    (env : IntakeEnv) (v : Option Value) (c : Consumer)
    → ((i : Intake) × (decode env v c ≡ (i, c)) × (is_accepted i ≡ false))
      ⊎ ((e : Event) × IsMigrated c.database × (decode env v c ≡ store_event env e c))
unfolding decode
decode_cases env none c = inl (invalid_json, refl, refl)
decode_cases env (some v) c = take_event_cases env (parse_event env.new_message_id v) c

-- An intake stores an event, or does nothing and accepts nothing.
pub receive_cases :
    (s : Settings) (codec : Codec) (env : IntakeEnv) (body : Bytes) (c : Consumer)
    → ((r : Intake) × (receive s codec env body c ≡ (r, c)) × (is_accepted r ≡ false))
      ⊎ ((e : Event) × IsMigrated c.database × (receive s codec env body c ≡ store_event env e c))
unfolding receive
receive_cases s codec env body c =
    elim (Bool-cases (ltb s.consumer_max_message_bytes (length body))) [
      | inl big ↦ inl (too_large, rw (big, receive), refl)
      | inr small ↦ rw (small, receive) (decode_cases env (codec.loads body) c)
    ]

-- A stored id: the message counts as a duplicate, and nothing else happens.
pub store_event_known :
    (env : IntakeEnv) (e : Event) (c : Consumer) {k : IdempotencyKey}
    → IsMigrated c.database
    → find_key e.message_id c.database ≡ some k
    → store_event env e c ≡ (
      duplicate,
      record c { metrics = record c.metrics { duplicate_total = suc c.metrics.duplicate_total } },
    )
unfolding store_event
store_event_known env e c {k} ready known =
    ap (λ r. commit_event env e r c) (insert_known env e c.database ready known)

insert_new :
    (env : IntakeEnv) (e : Event) (db : Database)
    → IsMigrated db
    → find_key e.message_id db ≡ none
    → insert_idempotency_key env.now e db
      ≡ ok (
        some (new_key env.now e),
        record db { idempotency_keys = db.idempotency_keys ++ new_key env.now e ∷ [] },
      )
unfolding insert_row
insert_new env e db ready new = insert_ready env e db ready ∙ ap ok (rw (new, insert_row))

-- A new id: one row in the first table, and one pending attempt for each live subscriber, in the
-- same transaction.
pub store_event_new :
    (env : IntakeEnv) (e : Event) (c : Consumer)
    → IsMigrated c.database
    → find_key e.message_id c.database ≡ none
    → store_event env e c ≡ (
      accepted e,
      record c {
        database = record c.database {
          idempotency_keys = c.database.idempotency_keys ++ new_key env.now e ∷ [];
          delivery_attempts =
              c.database.delivery_attempts
              ++ attempts_for env.now e.message_id env.new_ids 0
                  (where_rows is_live c.database.subscribers);
        };
        metrics = record c.metrics { received_total = suc c.metrics.received_total };
      },
    )
unfolding store_event create_delivery_attempts
store_event_new env e c ready new =
    ap (λ r. commit_event env e r c) (insert_new env e c.database ready new)

-- The new row is found behind the insert, and every other lookup is as it was.
pub find_key-insert :
    (now : ℕ) (e : Event) (m : String) (db : Database)
    → find_key e.message_id db ≡ none
    → find_key m (record db { idempotency_keys = db.idempotency_keys ++ new_key now e ∷ [] })
      ≡ (if str_eq e.message_id m then some (new_key now e) else find_key m db)
unfolding find_key new_key find_row
find_key-insert now e m db new = ground (
  arith,
  find_row-append (has_key m) db.idempotency_keys (new_key now e ∷ []),
  str_eq_iff e.message_id m,
)
