-- ===== src/Consumer/Reconciler.antt =====
-- `_reconciler` of app/consumer/rabbitmq.py: one round of its loop. The rows of the SELECT are
-- loaded, changed one by one in memory, and written by one commit; an exception out of the loop
-- leaves the changes unwritten, and what was published stays published.
pub mod Changes
pub mod Cycle
pub mod Abort
pub mod Effect
pub mod Abandon
use unith_task.Prelude.{
  ℕ, suc, ◌-◌, String, Bytes, Bool, ◌&&◌, Option, some, List, [], ◌∷◌, ltb, leb, if◌then◌else◌,
  f_string, str,
}
use unith_task.Prelude.Result.{Result, ok, raised, exception}
use unith_task.Config.{Settings, minutes}
use unith_task.Json.{Value, Codec, text, object, field, empty}
use unith_task.Db.{IdempotencyKey, EventStatus, Database, is_received, has_key}
use unith_task.Db.Table.{where_rows, update_rows}
use unith_task.Consumer.Handler.{update_keys}

-- How `asyncio.wait_for(exchange.publish(…), timeout=5.0)` ends for a row.
pub data Publish : Type 0 where
  published : Publish
  publish_timeout : Publish
  publish_error : String → Publish

-- json.dumps({"message_id": …, "event_type": …, "payload": …}).encode(), here and in app/api/events.py.
abbrev pub event_value : String → String → Value → Value
event_value message_id event_type payload = object (
    field "message_id" (text message_id)
      (field "event_type" (text event_type) (field "payload" payload empty)))

unfoldable pub event_body : Codec → String → String → Value → Bytes
event_body codec message_id event_type payload =
    codec.dumps (event_value message_id event_type payload)

abbrev pub is_stuck : ℕ → IdempotencyKey → Bool
is_stuck cutoff k = is_received k.status && ltb k.received_at cutoff

-- What a loaded row has changed when the commit comes.
pub data Change : Type 0 where
  abandon : ℕ → Change
  bump : ℕ → Change

abbrev pub abandoned_text : ℕ → String
abandoned_text n =
    f_string
      ("Abandoned after " ∷ str n ∷ " reconciler cycles (enrichment permanently unavailable)" ∷ [])

abbrev pub changed_row : Change → IdempotencyKey → IdempotencyKey
changed_row (abandon n) k = record k {
  status = EventStatus.failed;
  error = some (abandoned_text n);
}
changed_row (bump n) k = record k { reconcile_count = suc n }

pub record Round : Type 0 where
  pub sent : List Bytes
  pub changes : Result (List (String × Change))

abbrev with_change : String → Change → Round → Round
with_change m ch r = record {
  sent = r.sent;
  changes = elim r.changes [ ok cs ↦ ok ((m, ch) ∷ cs) | raised e ↦ raised e ];
}

module _ (s : Settings) (codec : Codec) where
  publish_row : IdempotencyKey → Publish → Round → Round
  publish_row k published rest =
      let r = with_change k.message_id (bump k.reconcile_count) rest in
      record r { sent = event_body codec k.message_id k.event_type k.raw_payload ∷ r.sent }
  publish_row k publish_timeout rest = rest
  publish_row k (publish_error exc) rest = record { sent = []; changes = raised (exception exc) }

  unfoldable pub reconcile_rows : (IdempotencyKey → Publish) → List IdempotencyKey → Round
  unfolding publish_row
  reconcile_rows publish [] = record { sent = []; changes = ok [] }
  reconcile_rows publish (k ∷ ks) =
      let rest = reconcile_rows publish ks in
      if leb s.reconciler_max_attempts k.reconcile_count
      then with_change k.message_id (abandon k.reconcile_count) rest
      else publish_row k (publish k) rest

  unfoldable pub commit_changes : List (String × Change) → Database → Database
  commit_changes [] db = db
  commit_changes ((m, ch) ∷ cs) db = commit_changes cs (update_keys (has_key m) (changed_row ch) db)

  abbrev pub commit_round : Result (List (String × Change)) → Database → Database
  commit_round (raised e) db = db
  commit_round (ok cs) db = commit_changes cs db

  -- The rows that one round loads.
  unfoldable pub stale_rows :
      (ℕ → List IdempotencyKey → List IdempotencyKey) → ℕ → Database → List IdempotencyKey
  stale_rows scan now db =
      let cutoff = now - minutes s.reconciler_stale_minutes in
      scan s.reconciler_batch_size (where_rows (is_stuck cutoff) db.idempotency_keys)

  -- The bodies that reach the queue, and the database behind the round.
  unfoldable pub reconcile :
      (ℕ → List IdempotencyKey → List IdempotencyKey)
      → (IdempotencyKey → Publish)
      → ℕ
      → Database
      → List Bytes × Database
  reconcile scan publish now db =
      let round = reconcile_rows publish (stale_rows scan now db) in
      (round.sent, commit_round round.changes db)
