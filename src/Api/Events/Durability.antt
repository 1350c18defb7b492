-- ===== src/Api/Events/Durability.antt =====
-- From POST /events/publish to the table of the events: what an answer of 202 promises.
use mathlib.Core.List.{Memᴰ}
use mathlib.Core.List.Memᴰ.{head, tail}
use unith_task.Prelude.{
  ℕ, ◌≤◌, ◌≡◌, refl, sym, ap, ◌∙◌, String, Bytes, Bool, false, true, List, [], ◌∷◌, ◌++◌, ◌⊎◌, inl,
  inr, length, text_or,
}
use mathlib.Core.Path.{subst}
use unith_task.Prelude.Result.{ok, raised, Result-cases}
use unith_task.Config.{Settings}
use unith_task.Json.{Codec, RoundTrips, object}
use unith_task.Schemas.{EventPublishRequest, is_valid_publish}
use unith_task.Schemas.Validation.{IsUuidText}
use unith_task.Schemas.Validation.Pipeline.{event_of, published_body, published_body-Decodes}
use unith_task.Broker.{AppState, get_exchange}
use unith_task.Consumer.Intake.{IntakeEnv}
use unith_task.Consumer.Intake.Stored.{IsMigrated}
use unith_task.Consumer.Reconciler.{event_value, event_body}
use unith_task.Consumer.Handler.Idempotency.{IsStored}
use unith_task.Consumer.Feed.{Feed, Turn, take_message, turn, run_turns}
use unith_task.Consumer.Feed.Lossless.{tables_of, run_turns-lossless}
use unith_task.Api.Events.{
  Delivered, confirmed, unroutable, lost, unconfirmed, publish_event, publish_through,
}

-- The exchange has a binding to the queue, as the consumer's set-up makes it.
abbrev pub is_routed : Delivered → Bool
is_routed unroutable = false
is_routed _ = true

module _ (codec : Codec) (new : String) (r : EventPublishRequest) (queue : List Bytes) where
  publish_event_accepted :
      (d : Delivered) {m : String}
      → is_routed d ≡ true
      → (publish_event codec new d r queue).0 ≡ ok m
      → (m ≡ text_or r.message_id new)
        × ((publish_event codec new d r queue).1 ≡ queue ++ published_body codec new r ∷ [])
  unfolding publish_event event_body
  publish_event_accepted confirmed routed h = (cc, refl)
  publish_event_accepted unroutable routed h = absurd (cc)
  publish_event_accepted (lost e) routed h = cc
  publish_event_accepted (unconfirmed e) routed h = cc

  -- A publication that is routed and answered gives the id of the request, or the fresh one, and
  -- puts the body behind the queue.
  publish_through_accepted :
      (d : Delivered) (app : AppState) {m : String}
      → is_routed d ≡ true
      → (publish_through codec new d r app queue).0 ≡ ok m
      → (m ≡ text_or r.message_id new)
        × ((publish_through codec new d r app queue).1 ≡ queue ++ published_body codec new r ∷ [])
  unfolding publish_through
  publish_through_accepted d app {m} routed h = elim (Result-cases (get_exchange app)) [
    | inl (x, e) ↦
        let run : publish_through codec new d r app queue ≡ publish_event codec new d r queue =
          rw (e, publish_through) refl in
        let out = publish_event_accepted d {m = m} routed (ap (λ p. p.0) (sym run) ∙ h) in
        (out.0, ap (λ p. p.1) run ∙ out.1)
    | inr (x, e) ↦
        let run : publish_through codec new d r app queue ≡ (raised x, queue) =
          rw (e, publish_through) refl in
        cc
  ]

Mem-last : {A : Type 0} (x : A) (xs : List A) → Memᴰ x (xs ++ x ∷ [])
Mem-last x [] = head refl
Mem-last x (y ∷ xs) = tail (Mem-last x xs)

-- A valid request to publish, whose body is within the consumer's limit and is read back by the
-- codec, is answered with an id; the exchange has its binding to the queue, and the column
-- `reconcile_count` its server default. Whatever happens then (other messages, lost ACKs, deaths of the
-- consumer, answers of the provider, rounds of the reconciler), the event is stored under that id,
-- or its message waits at a position where the next handler that takes it stores it.
pub publish_through-lossless :
    (s : Settings) (codec : Codec) (new : String) (d : Delivered) (r : EventPublishRequest)
    (app : AppState) (f : Feed) (ts : List Turn) {m : String}
    → RoundTrips codec (event_value (text_or r.message_id new) r.event_type (object r.payload))
    → IsUuidText new
    → is_valid_publish codec r ≡ true
    → length (published_body codec new r) ≤ s.consumer_max_message_bytes
    → is_routed d ≡ true
    → IsMigrated (tables_of f)
    → (publish_through codec new d r app f.queue).0 ≡ ok m
    → let sent : Feed = record f { queue = (publish_through codec new d r app f.queue).1 } in
      let f' = run_turns s codec ts sent in
      IsStored m (tables_of f')
      ⊎ ((i : ℕ) × ((env : IntakeEnv)
            → IsStored m (tables_of (turn s codec (take_message i env) f'))))
publish_through-lossless s codec new d r app f ts {m} ic iu valid small routed ready answered =
    let out = publish_through_accepted codec new r f.queue d app {m = m} routed answered in
    let body = published_body codec new r in
    let sent : Feed = record f { queue = (publish_through codec new d r app f.queue).1 } in
    subst
      (λ j.
        let f' = run_turns s codec ts sent in
        IsStored j (tables_of f')
        ⊎ ((i : ℕ) × ((env : IntakeEnv)
              → IsStored j (tables_of (turn s codec (take_message i env) f')))))
      (sym out.0)
      (run_turns-lossless s codec body (event_of new r)
        (λ env. published_body-Decodes s codec r new env ic iu valid small) ts sent
        (subst (Memᴰ body) (sym out.1) (Mem-last body f.queue)) ready)
