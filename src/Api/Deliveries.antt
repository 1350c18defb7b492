-- ===== src/Api/Deliveries.antt =====
-- app/api/deliveries.py: listing, manual retry and statistics.
pub mod Retry
pub mod Stats
pub mod Listing
use unith_task.Prelude.{
  ℕ, suc, String, Bool, true, false, not, ◌&&◌, ◌||◌, Option, none, some, List, [], ◌∷◌, map, ◌==◌,
  leb, if◌then◌else◌, str, str_eq, is_empty, f_string, take,
}
use unith_task.Prelude.Result.{Result, ok, raised, http_exception}
use unith_task.Db.{
  DeliveryStatus, pending, in_flight, delivered, dead, DeliveryAttempt, EventStatus, received,
  enriched, dispatched, IdempotencyKey, Database, same_status, has_id, find_attempt,
}
use unith_task.Db.Table.{where_rows, update_rows}
use unith_task.Db.Order.{order_by_desc}
use unith_task.Delivery.Claim.{update_attempts}
use unith_task.Schemas.{DeliveryAttemptResponse, to_delivery_response}

abbrev matches_status : Option DeliveryStatus → DeliveryAttempt → Bool
matches_status none a = true
matches_status (some st) a = same_status a.status st

abbrev matches_subscriber : Option ℕ → DeliveryAttempt → Bool
matches_subscriber none a = true
matches_subscriber (some id) a = a.subscriber_id == id

-- An empty message id is no filter.
abbrev matches_message : Option String → DeliveryAttempt → Bool
matches_message none a = true
matches_message (some m) a = is_empty m || str_eq a.message_id m

pub record Filters : Type 0 where
  pub status : Option DeliveryStatus
  pub subscriber_id : Option ℕ
  pub message_id : Option String

abbrev pub matches : Filters → DeliveryAttempt → Bool
matches f a =
    matches_status f.status a
    && matches_subscriber f.subscriber_id a
    && matches_message f.message_id a

-- `limit: int = Query(50, ge=1, le=200)`
unfoldable pub list_deliveries : Filters → ℕ → Database → Result (List DeliveryAttemptResponse)
list_deliveries f limit db =
    if leb 1 limit && leb limit 200
    then ok (
        map to_delivery_response (
          take limit (
            order_by_desc (λ (a : DeliveryAttempt). a.created_at)
              (where_rows (matches f) db.delivery_attempts))))
    else raised (http_exception 422 "limit")

abbrev status_text : DeliveryStatus → String
status_text pending = "pending"
status_text in_flight = "in_flight"
status_text delivered = "delivered"
status_text DeliveryStatus.failed = "failed"
status_text dead = "dead"

abbrev pub is_retryable : DeliveryStatus → Bool
is_retryable st = same_status st dead || same_status st DeliveryStatus.failed

abbrev pub retried_row : ℕ → ℕ → DeliveryAttempt → DeliveryAttempt
retried_row now updated a = record a {
  status = pending;
  next_attempt_at = now;
  last_error = none;
  updated_at = updated;
}

-- The UPDATE of the commit: it asks for the id alone.
abbrev pub retry_write : ℕ → (now updated : ℕ) → Database → Database
retry_write id now updated db = update_attempts (has_id id) (retried_row now updated) db

-- `retry_delivery`, with its two readings of the clock, where nothing comes between its SELECT and its
-- commit.
unfoldable pub retry_delivery :
    ℕ → (now updated : ℕ) → Database → Result DeliveryAttemptResponse × Database
retry_delivery id now updated db = elim (find_attempt id db) [
  | none ↦ (raised (http_exception 404 "Delivery attempt not found"), db)
  | some a ↦
      if is_retryable a.status
      then (ok (to_delivery_response (retried_row now updated a)), retry_write id now updated db)
      else (
        raised (
            http_exception 409 (
              f_string (
                "Can only retry dead/failed attempts; current status='"
                ∷ status_text a.status
                ∷ "'"
                ∷ []))),
        db,
      )
]

-- GROUP BY status with count(*), as a dict.
module _ {S : Type 0} (same : S → S → Bool) where
  unfoldable pub count_in : S → List (S × ℕ) → List (S × ℕ)
  count_in st [] = (st, 1) ∷ []
  count_in st ((k, n) ∷ rest) = if same k st then (k, suc n) ∷ rest else (k, n) ∷ count_in st rest

  unfoldable pub group_counts : List S → List (S × ℕ)
  unfolding count_in
  group_counts [] = []
  group_counts (st ∷ rest) = count_in st (group_counts rest)

abbrev pub same_event_status : EventStatus → EventStatus → Bool
same_event_status received received = true
same_event_status enriched enriched = true
same_event_status dispatched dispatched = true
same_event_status EventStatus.failed EventStatus.failed = true
same_event_status _ _ = false

-- `messages` in the JSON of the management API: missing, null, or a number.
pub data Messages : Type 0 where
  missing : Messages
  null_messages : Messages
  messages_of : ℕ → Messages

-- What the management API answers: a status with the queue's `messages`, or an exception.
pub data ManagementReply : Type 0 where
  reply : ℕ → Messages → ManagementReply
  unreachable : String → ManagementReply

pub record PipelineStats : Type 0 where
  pub queue_depth : Option ℕ
  pub queue_depth_available : Bool
  pub queue_depth_error : Option String
  pub deliveries_by_status : List (DeliveryStatus × ℕ)
  pub idempotency_keys_by_status : List (EventStatus × ℕ)

-- `.get("messages", 0)`
abbrev messages_or : Messages → Option ℕ
messages_or missing = some 0
messages_or null_messages = none
messages_or (messages_of n) = some n

abbrev delivery_status : DeliveryAttempt → DeliveryStatus
delivery_status a = a.status

abbrev event_status : IdempotencyKey → EventStatus
event_status k = k.status

abbrev with_depth :
    List (DeliveryStatus × ℕ) → List (EventStatus × ℕ) → Option ℕ → Option String → PipelineStats
with_depth ds es depth err = record {
  queue_depth = depth;
  queue_depth_available = elim err [ none ↦ true | some e ↦ false ];
  queue_depth_error = err;
  deliveries_by_status = ds;
  idempotency_keys_by_status = es;
}

unfoldable pub pipeline_stats : ManagementReply → Database → PipelineStats
unfolding group_counts
pipeline_stats m db =
    let ds = group_counts same_status (map delivery_status db.delivery_attempts) in
    let es = group_counts same_event_status (map event_status db.idempotency_keys) in
    elim m [
      | unreachable e ↦ with_depth ds es none (some e)
      | reply code messages ↦
          if code == 200
          then with_depth ds es (messages_or messages) none
          else with_depth ds es none
              (some (f_string ("management API returned HTTP " ∷ str code ∷ [])))
    ]
