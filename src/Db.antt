-- ===== src/Db.antt =====
-- app/db/models.py: the three tables and the statements that the program runs on them.
-- A table is the list of its rows; an insert adds at the end. Times are in milliseconds.
-- UUIDs are numbers.
pub mod Table
pub mod Lookup
pub mod Keys
pub mod Schema
pub mod Session
pub mod Order
use unith_task.Prelude.{
  ℕ, String, Bool, true, false, ◌&&◌, Option, none, some, List, ◌==◌, leb, str_eq, text_length,
}
use unith_task.Json.{Value}
use Table.{find_row}

pub record Subscriber : Type 0 where
  pub id : ℕ
  pub name : String
  pub endpoint : String
  pub secret : String
  pub is_active : Bool
  pub created_at : ℕ
  pub updated_at : ℕ
  pub deleted_at : Option ℕ

pub data EventStatus : Type 0 where
  received enriched dispatched failed : EventStatus

pub record IdempotencyKey : Type 0 where
  pub message_id : String
  pub event_type : String
  pub raw_payload : Value
  pub enriched_payload : Option Value
  pub status : EventStatus
  pub received_at : ℕ
  pub enriched_at : Option ℕ
  pub dispatched_at : Option ℕ
  pub error : Option String
  pub reconcile_count : ℕ

pub data DeliveryStatus : Type 0 where
  pending in_flight delivered failed dead : DeliveryStatus

pub record DeliveryAttempt : Type 0 where
  pub id : ℕ
  pub message_id : String
  pub subscriber_id : ℕ
  pub status : DeliveryStatus
  pub attempt_count : ℕ
  pub next_attempt_at : ℕ
  pub last_attempt_at : Option ℕ
  pub last_http_status : Option ℕ
  pub last_error : Option String
  pub created_at : ℕ
  pub updated_at : ℕ

-- The rows, and whether the column `reconcile_count` has the server default 0: the migration of
-- app/db/session.py gives it one, and `create_all` makes it NOT NULL without one, since `default=0` of
-- the model is Python's.
pub record Database : Type 0 where
  pub has_count_default : Bool
  pub subscribers : List Subscriber
  pub idempotency_keys : List IdempotencyKey
  pub delivery_attempts : List DeliveryAttempt

-- status == "received"
abbrev pub is_received : EventStatus → Bool
is_received received = true
is_received _ = false

-- status == …, on the delivery statuses
abbrev pub same_status : DeliveryStatus → DeliveryStatus → Bool
same_status pending pending = true
same_status in_flight in_flight = true
same_status delivered delivered = true
same_status DeliveryStatus.failed DeliveryStatus.failed = true
same_status dead dead = true
same_status _ _ = false

abbrev pub is_none {ℓ} : {A : Type ℓ} → Option A → Bool
is_none none = true
is_none (some a) = false

-- Subscriber.is_active == True, Subscriber.deleted_at.is_(None)
abbrev pub is_live : Subscriber → Bool
is_live s = s.is_active && is_none s.deleted_at

-- The width of the String(255) columns.
unfoldable pub fits_column : String → Bool
fits_column s = leb (text_length s) 255

abbrev pub has_key : String → IdempotencyKey → Bool
has_key m k = str_eq k.message_id m

abbrev pub has_id : ℕ → DeliveryAttempt → Bool
has_id i a = a.id == i

abbrev pub is_subscriber : ℕ → Subscriber → Bool
is_subscriber i s = s.id == i

-- session.get and scalar_one_or_none, by primary key.
unfoldable pub find_key : String → Database → Option IdempotencyKey
find_key m db = find_row (has_key m) db.idempotency_keys

unfoldable pub find_attempt : ℕ → Database → Option DeliveryAttempt
find_attempt i db = find_row (has_id i) db.delivery_attempts

unfoldable pub find_subscriber : ℕ → Database → Option Subscriber
find_subscriber i db = find_row (is_subscriber i) db.subscribers

abbrev pub no_rows : Database
no_rows = record {
  has_count_default = true;
  subscribers = List.[];
  idempotency_keys = List.[];
  delivery_attempts = List.[];
}
