-- ===== src/Enricher.antt =====
-- app/enricher: the provider interface (base.py), the mock (mock_llm.py), the OpenAI provider
-- (openai_llm.py) and the factory (__init__.py). A call of `enrich` ends in an event or in an
-- exception; what it draws at random and what the remote API answers are its arguments.
pub mod Laws
use unith_task.Prelude.{
  ℕ, zero, suc, ◌*◌, ◌^◌, String, Bool, true, false, Option, none, some, List, [], ◌∷◌, ltb, str_eq,
  if◌then◌else◌, is_empty, f_string, encode, text_or,
}
use unith_task.Prelude.Result.{Result, ok, raised, exception}
use unith_task.Config.{Settings}
use unith_task.Json.{
  Value, Number, Items, Fields, Codec, null, boolean, number, text, array, object, nil, cons, empty,
  field, put, size, whole,
}

pub record EnrichedEvent : Type 0 where
  pub event_type : String
  pub original_payload : Value
  pub enriched_payload : Value
  pub model : String
  pub tokens_used : ℕ

-- How a call of `enrich` ends; `crashed` is any exception but the two of base.py.
pub data Enrichment : Type 0 where
  enriched : EnrichedEvent → Enrichment
  transient : String → Enrichment
  fatal : String → Enrichment
  crashed : String → Enrichment

pub data Provider : Type 0 where
  mock openai : Provider

-- The constructor of the OpenAI provider; the package may be missing.
unfoldable pub openai_provider : Settings → Bool → Result Provider
openai_provider s openai_installed =
    if openai_installed
    then if is_empty s.openai_api_key
      then raised (exception "OPENAI_API_KEY is required for the OpenAI enrichment provider.")
      else ok openai
    else raised (exception "Install 'openai' to use the OpenAI enrichment provider.")

unfoldable pub get_provider : Settings → Bool → Result Provider
unfolding openai_provider
get_provider s openai_installed =
    if str_eq s.enrichment_provider "openai" then openai_provider s openai_installed else ok mock

-- What one call of the mock draws. `roll` counts steps of 2 ^ -53, as random.random() returns them;
-- the two texts are `event_type!r` and `roll:.4f`.
pub record Draws : Type 0 where
  pub roll : ℕ
  pub choice : ℕ
  pub confidence : Number
  pub tokens : ℕ
  pub event_repr : String
  pub roll_text : String

abbrev sentiment : ℕ → String
sentiment zero = "positive"
sentiment (suc zero) = "neutral"
sentiment (suc (suc n)) = "negative"

abbrev mock_error : String → String → Draws → String
mock_error kind event_type d =
    f_string (
      "Mock " ∷ kind ∷ " error for event_type=" ∷ d.event_repr ∷ " (roll=" ∷ d.roll_text ∷ ")" ∷ [])

abbrev mock_data : String → Fields → Draws → Fields
mock_data event_type payload d =
    field "summary" (text (f_string ("Mock enrichment of '" ∷ event_type ∷ "' event" ∷ []))) (
      field "sentiment" (text (sentiment d.choice)) (
        field "confidence" (number d.confidence) (
          field "tags" (array (cons (text event_type) (cons (text "mock") (cons (text "llm") nil))))
            (field "original_field_count" (whole (size payload)) empty))))

-- `{**payload, "_enrichment": …}`; anything but a dict raises TypeError.
mock_event : String → Value → Draws → Enrichment
mock_event event_type (object payload) d = enriched (record {
  event_type = event_type;
  original_payload = object payload;
  enriched_payload = object (put "_enrichment" (object (mock_data event_type payload d)) payload);
  model = "mock-gpt";
  tokens_used = d.tokens;
})
mock_event event_type _ d = crashed "TypeError"

-- roll < 0.02, and roll < 0.02 + 0.08
unfoldable pub mock_enrich : String → Value → Draws → Enrichment
unfolding mock_event
mock_enrich event_type payload d =
    if ltb (d.roll * 50) (2 ^ 53)
    then fatal (mock_error "fatal" event_type d)
    else if ltb (d.roll * 10) (2 ^ 53)
    then transient (mock_error "transient" event_type d)
    else mock_event event_type payload d

-- The chat completion: an exception, or the content and the token count of the response.
pub data ApiReply : Type 0 where
  api_error : String → ApiReply
  completion : Option String → Option ℕ → ApiReply

abbrev tokens_or : Option ℕ → ℕ
tokens_or none = 0
tokens_or (some n) = n

openai_event : Settings → String → Value → Option Value → ℕ → String → Enrichment
openai_event s event_type (object payload) (some enriched_data) tokens model = enriched (record {
  event_type = event_type;
  original_payload = object payload;
  enriched_payload = object (put "_enrichment" enriched_data payload);
  model = model;
  tokens_used = tokens;
})
openai_event s event_type payload none tokens model = crashed "JSONDecodeError"
openai_event s event_type payload (some v) tokens model = crashed "TypeError"

unfoldable pub openai_enrich : Settings → Codec → String → String → Value → ApiReply → Enrichment
unfolding openai_event
openai_enrich s codec model event_type payload (api_error exc) =
    transient (f_string ("OpenAI API error: " ∷ exc ∷ []))
openai_enrich s codec model event_type payload (completion content tokens) =
    openai_event s event_type payload (codec.loads (encode (text_or content "{}")))
      (tokens_or tokens) model

-- The arguments of chat.completions.create that depend on the event and the settings.
pub record ChatRequest : Type 0 where
  pub model : String
  pub content : String

-- `dumps_indented` is json.dumps(payload, indent=2).
unfoldable pub chat_request : Settings → (Value → String) → String → Value → ChatRequest
chat_request s dumps_indented event_type payload = record {
  model = s.openai_model;
  content = f_string (
      "You are an event enrichment assistant.\nEvent type: "
      ∷ event_type
      ∷ "\nPayload: "
      ∷ dumps_indented payload
      ∷ "\n\nReturn a JSON object with: summary, sentiment (positive/neutral/negative), "
      ∷ "confidence (0-1), tags (list of strings)."
      ∷ []);
}

-- `OpenAILLMProvider.enrich`, with the client as a function of the request.
unfoldable pub openai_call :
    Settings → Codec → (Value → String) → (ChatRequest → ApiReply) → String → Value → Enrichment
unfolding openai_enrich chat_request
openai_call s codec dumps_indented client event_type payload =
    openai_enrich s codec s.openai_model event_type payload
      (client (chat_request s dumps_indented event_type payload))
