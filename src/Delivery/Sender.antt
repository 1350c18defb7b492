-- ===== src/Delivery/Sender.antt =====
-- `deliver` of app/delivery/sender.py. What the HTTP client answers to a request is a parameter;
-- a failure that is neither a timeout nor a RequestError leaves the function as an exception.
pub mod Results
use unith_task.Prelude.{
  ℕ, String, Bytes, Bool, false, ◌&&◌, Option, none, some, [], ◌∷◌, leb, ltb, if◌then◌else◌, prefix,
  f_string, str,
}
use unith_task.Prelude.Result.{Result, ok, raised, exception}
use unith_task.Json.{Value, Fields, text, object, field, empty}
use unith_task.Runtime.{Runtime}
use unith_task.Delivery.Signing.{sign}

pub record Request : Type 0 where
  pub endpoint : String
  pub content : Bytes
  pub signature : String
  pub timestamp : String
  pub webhook_id : String

-- The text of a response is `none` where reading it raises.
pub data HttpOutcome : Type 0 where
  response : ℕ → Option String → HttpOutcome
  timeout : String → HttpOutcome
  request_error : String → HttpOutcome
  other_error : String → HttpOutcome

pub record DeliveryResult : Type 0 where
  pub success : Bool
  pub status_code : Option ℕ
  pub error : Option String

abbrev pub is_2xx : ℕ → Bool
is_2xx code = leb 200 code && ltb code 300

abbrev response_error : ℕ → Option String → String
response_error code none = f_string ("HTTP " ∷ str code ∷ [])
response_error code (some body) = prefix 500 body

unfoldable pub classify : HttpOutcome → Result DeliveryResult
classify (response code body) =
    let success = is_2xx code in
    ok (record {
      success = success;
      status_code = some code;
      error = if success then none else some (response_error code body);
    })
classify (timeout exc) = ok (record {
  success = false;
  status_code = none;
  error = some (f_string ("timeout: " ∷ exc ∷ []));
})
classify (request_error exc) = ok (record { success = false; status_code = none; error = some exc })
classify (other_error exc) = raised (exception exc)

module _ (rt : Runtime) where
  unfoldable pub build_request : ℕ → String → String → String → Value → ℕ → Request
  unfolding sign
  build_request delivery_id endpoint secret event_type payload now_ms =
      let id_text = rt.uuid_text delivery_id in
      let body_data : Fields =
        field "delivery_id" (text id_text)
          (field "event_type" (text event_type) (field "payload" payload empty)) in
      let body_bytes = rt.codec.dumps_compact (object body_data) in
      let (signature, timestamp_ms) = sign rt secret body_bytes none now_ms in
      record {
        endpoint = endpoint;
        content = body_bytes;
        signature = signature;
        timestamp = str timestamp_ms;
        webhook_id = id_text;
      }

  unfoldable pub deliver :
      (Request → HttpOutcome) → ℕ → String → String → String → Value → ℕ → Result DeliveryResult
  unfolding classify
  deliver http delivery_id endpoint secret event_type payload now_ms =
      classify (http (build_request delivery_id endpoint secret event_type payload now_ms))
