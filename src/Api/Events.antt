-- ===== src/Api/Events.antt =====
-- app/api/events.py, over the queue as the list of the bodies that wait in it.
pub mod Durability
use unith_task.Prelude.{String, Bytes, none, some, List, [], ◌∷◌, ◌++◌, text_or}
use unith_task.Prelude.Result.{Result, ok, raised, Exception, http_exception}
use unith_task.Json.{Codec, object}
use unith_task.Db.{Database, find_key}
use unith_task.Schemas.{EventPublishRequest, EnrichedEventResponse, to_event_response}
use unith_task.Broker.{AppState, get_exchange}
use unith_task.Consumer.Reconciler.{event_body}

-- How `exchange.publish` ends: the broker has the message, in the queue; it has it, but the exchange
-- has no binding to the queue, so that no queue gets it (which publish does not report); the message
-- is lost; it is in the queue, and the confirmation is what fails.
pub data Delivered : Type 0 where
  confirmed : Delivered
  unroutable : Delivered
  lost : Exception → Delivered
  unconfirmed : Exception → Delivered

abbrev hand_over : Delivered → String → Bytes → List Bytes → Result String × List Bytes
hand_over confirmed m body queue = (ok m, queue ++ body ∷ [])
hand_over unroutable m body queue = (ok m, queue)
hand_over (lost e) m body queue = (raised e, queue)
hand_over (unconfirmed e) m body queue = (raised e, queue ++ body ∷ [])

-- `publish_event` behind the reading of the exchange; `new_message_id` is str(uuid.uuid4()).
unfoldable pub publish_event :
    Codec → String → Delivered → EventPublishRequest → List Bytes → Result String × List Bytes
publish_event codec new_message_id d body queue =
    let message_id = text_or body.message_id new_message_id in
    hand_over d message_id (event_body codec message_id body.event_type (object body.payload)) queue

-- The whole handler: the exchange is read from `app.state`.
unfoldable pub publish_through :
    Codec
    → String
    → Delivered
    → EventPublishRequest
    → AppState
    → List Bytes
    → Result String × List Bytes
unfolding publish_event
publish_through codec new_message_id d body app queue = elim (get_exchange app) [
  | raised e ↦ (raised e, queue)
  | ok x ↦ publish_event codec new_message_id d body queue
]

unfoldable pub get_event : String → Database → Result EnrichedEventResponse
get_event message_id db = elim (find_key message_id db) [
  | none ↦ raised (http_exception 404 "Event not found")
  | some ik ↦ ok (to_event_response ik)
]
