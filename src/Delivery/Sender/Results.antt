-- ===== src/Delivery/Sender/Results.antt =====
-- What `deliver` makes of an answer, and what it sends.
use unith_task.Prelude.{
  ℕ, ◌+◌, ◌*◌, ◌≤◌, ◌<◌, ◌≡◌, refl, ◌↔◌, String, true, Option, none, arith, str,
}
use unith_task.Prelude.Result.{ok}
use unith_task.Json.{Value}
use unith_task.Runtime.{Runtime}
use unith_task.Delivery.Signing.{verify}
use unith_task.Delivery.Signing.Verify.{verify-sign}
use unith_task.Delivery.Sender.{
  HttpOutcome, response, timeout, request_error, other_error, DeliveryResult, classify,
  build_request,
}

-- A result is a success exactly when the answer is a response with a 2xx status; it has an error
-- text exactly when it is no success.
pub classify_success :
    (o : HttpOutcome) (r : DeliveryResult)
    → classify o ≡ ok r
    → ((r.success ≡ true) ↔ (
        (code : ℕ) × (text : Option String) × (o ≡ response code text)
        × (200 ≤ code)
        × (code < 300)))
      × ((r.error ≡ none) ↔ (r.success ≡ true))
unfolding classify
classify_success (response code text) r h = (
  (λ t. (code, text, refl, ground arith, ground arith), λ (c, x, e, lo, hi). ground arith),
  (λ n. ground arith, λ t. ground arith),
)
classify_success (timeout exc) r h = (
  (λ t. absurd (ground arith), λ (c, x, e, lo, hi). absurd (cc)),
  (λ n. ground arith, λ t. ground arith),
)
classify_success (request_error exc) r h = (
  (λ t. absurd (ground arith), λ (c, x, e, lo, hi). absurd (cc)),
  (λ n. ground arith, λ t. ground arith),
)
classify_success (other_error exc) r h = absurd (cc)

-- The request goes to the given endpoint, names its timestamp in a header, and carries a signature
-- that the subscriber's `verify` accepts for the sent bytes, as long as its clock is within the
-- tolerance of the sender's.
pub build_request_verifies :
    (rt : Runtime) (id : ℕ) (endpoint secret event_type : String) (payload : Value)
    → (sent_at now tolerance : ℕ) → now ≤ sent_at + tolerance * 1000
    → sent_at ≤ now + tolerance * 1000
    → let r = build_request rt id endpoint secret event_type payload sent_at in
      (r.endpoint ≡ endpoint)
      × (r.timestamp ≡ str sent_at)
      × (r.webhook_id ≡ rt.uuid_text id)
      × (verify rt secret r.content r.signature sent_at tolerance now ≡ true)
unfolding build_request
build_request_verifies rt id endpoint secret event_type payload sent_at now tolerance late early =
    (refl, refl, refl, verify-sign rt secret _ sent_at now tolerance late early)
