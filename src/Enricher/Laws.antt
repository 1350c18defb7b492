-- ===== src/Enricher/Laws.antt =====
-- What an event carries once a provider has enriched it.
use unith_task.Prelude.{
  ℕ, ◌*◌, ◌^◌, ◌≡◌, refl, String, Option, none, some, arith, str_eq, if◌then◌else◌, encode, text_or,
  Bool-cases, inl, inr, ltb,
}
use unith_task.Config.{Settings}
use unith_task.Json.{Value, Fields, Codec, object, get, put, value_or}
use unith_task.Json.Laws.{get-put, is_truthy-put}
use unith_task.Enricher.{
  EnrichedEvent, Enrichment, enriched, transient, fatal, crashed, Draws, mock_data, mock_event,
  mock_enrich, ApiReply, api_error, completion, openai_event, openai_enrich, tokens_or,
}

-- A dict `d` was enriched: the event keeps it as the original; its new payload is a dict in which
-- the field `_enrichment` is set and every other key `j` reads as in `d`; and it is never falsy, so
-- it is what a delivery sends in place of `raw`.
abbrev pub IsEnrichmentOf : Fields → String → Value → EnrichedEvent → Type 0
IsEnrichmentOf d j raw ev =
    (ev.original_payload ≡ object d)
    × (value_or (some ev.enriched_payload) raw ≡ ev.enriched_payload)
    × ((e : Fields) × (v : Value) × (ev.enriched_payload ≡ object e)
        × (get j e ≡ (if str_eq "_enrichment" j then some v else get j d)))

-- Nothing is said of a call that ends in an exception.
abbrev pub Keeps : Fields → String → Value → Enrichment → Type 0
Keeps d j raw (enriched ev) = IsEnrichmentOf d j raw ev
Keeps d j raw (transient m) = Unit
Keeps d j raw (fatal m) = Unit
Keeps d j raw (crashed m) = Unit

module _ (d : Fields) (j : String) (raw : Value) where
  put-Keeps :
      (v : Value) (event_type model : String) (tokens : ℕ)
      → IsEnrichmentOf d j raw (record {
        event_type = event_type;
        original_payload = object d;
        enriched_payload = object (put "_enrichment" v d);
        model = model;
        tokens_used = tokens;
      })
  put-Keeps v event_type model tokens = (
    refl,
    ground (arith, is_truthy-put "_enrichment" v d),
    (put "_enrichment" v d, v, refl, get-put "_enrichment" j v d),
  )

  mock_enrich-Keeps :
      (event_type : String) (draws : Draws)
      → Keeps d j raw (mock_enrich event_type (object d) draws)
  unfolding mock_enrich mock_event
  mock_enrich-Keeps event_type draws = elim (Bool-cases (ltb (draws.roll * 50) (2 ^ 53))) [
    | inl bad ↦ rw (bad, mock_enrich) tt
    | inr no_ ↦ elim (Bool-cases (ltb (draws.roll * 10) (2 ^ 53))) [
      | inl bad ↦ rw (no_, bad, mock_enrich) tt
      | inr fine ↦
          rw (no_, fine, mock_enrich)
            (put-Keeps (object (mock_data event_type d draws)) event_type "mock-gpt" draws.tokens)
    ]
  ]

  openai_event-Keeps :
      (s : Settings) (event_type : String) (v : Option Value) (tokens : ℕ) (model : String)
      → Keeps d j raw (openai_event s event_type (object d) v tokens model)
  unfolding openai_event
  openai_event-Keeps s event_type none tokens model = tt
  openai_event-Keeps s event_type (some v) tokens model = put-Keeps v event_type model tokens

  openai_enrich-Keeps :
      (s : Settings) (codec : Codec) (model event_type : String) (r : ApiReply)
      → Keeps d j raw (openai_enrich s codec model event_type (object d) r)
  unfolding openai_enrich
  openai_enrich-Keeps s codec model event_type (api_error exc) = tt
  openai_enrich-Keeps s codec model event_type (completion content tokens) =
      openai_event-Keeps s event_type (codec.loads (encode (text_or content "{}")))
        (tokens_or tokens) model

  -- Whichever provider enriches a dict: if the call returns an event, its original payload is the
  -- dict, its new payload has the field `_enrichment` and otherwise reads as the dict does, and it
  -- is never falsy, so that a delivery sends it and not the raw payload.
  pub enrich-Keeps :
      (s : Settings) (codec : Codec) (model event_type : String) (r : ApiReply) (draws : Draws)
      → Keeps d j raw (mock_enrich event_type (object d) draws)
        × Keeps d j raw (openai_enrich s codec model event_type (object d) r)
  enrich-Keeps s codec model event_type r draws =
      (mock_enrich-Keeps event_type draws, openai_enrich-Keeps s codec model event_type r)
