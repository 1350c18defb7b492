-- ===== src/Scripts/Stored.antt =====
-- What the consumer stores of the events that `publish` sends.
use unith_task.Prelude.{
  ℕ, suc, zero, ◌≤◌, ◌<◌, ◌+◌, ◌≡◌, refl, ap, ◌∙◌, inl, inr, String, Bytes, Bool, true, false, ◌&&◌,
  List, [], ◌∷◌, ◌++◌, map, length, arith, All, All-append, Bool-cases,
}
use unith_task.Prelude.Distinct.{
  contains, arrive_at, first_arrivals, first_arrivals-append, contains-All,
}
use unith_task.Config.{Settings}
use unith_task.Json.{Value, Codec, RoundTrips}
use unith_task.Db.{fits_column}
use unith_task.Schemas.Validation.{IsUuidText, parse_event-body}
use unith_task.Consumer.Intake.{Consumer, IntakeEnv}
use unith_task.Consumer.Intake.Stored.{IsMigrated}
use unith_task.Consumer.Handler.{EnrichEnv}
use unith_task.Consumer.Handler.Arrivals.{
  Delivery, stored_ids, handle_all, Carries, handle_all-first_arrivals,
}
use unith_task.Consumer.Reconciler.{event_body, event_value}
use unith_task.Scripts.{
  Chances, Publisher, no_messages, send_event, fresh_id, pick_id, publish_one, publish_from,
  publish,
}
use unith_task.Scripts.Counts.{IsRandom, IsTallied, pick-IsTallied, no_messages-IsTallied}

abbrev sent_id : String × Bytes → String
sent_id m = m.0

-- The messages of the queue, with what their handlers draw.
abbrev pub queued : (ℕ → IntakeEnv) → (ℕ → EnrichEnv) → ℕ → List (String × Bytes) → List Delivery
queued intakes enriches i [] = []
queued intakes enriches i ((m, body) ∷ ms) =
    record { body = body; intake = intakes i; enrich = enriches i }
    ∷ queued intakes enriches (suc i) ms

module _ (codec : Codec) (d : Chances) (duplicates : Bool) (event_type : String) where
  -- A text for an id: not empty, within its column, and read back in the messages of `bound` turns.
  pub record IsFit (bound : ℕ) (m : String) : Type 0 where
    pub text : IsUuidText m
    pub reads : (i : ℕ) → i < bound → RoundTrips codec (event_value m event_type (d.payload i))

  -- A message of this script: such an id, and the body that `publish` builds.
  IsOwn : String × Bytes → Type 0
  IsOwn (m, body) =
      IsUuidText m
      × ((payload : Value) × (body ≡ event_body codec m event_type payload)
          × RoundTrips codec (event_value m event_type payload))

  record IsOrderly (bound : ℕ) (p : Publisher) : Type 0 where
    ids : All (IsFit bound) p.message_ids
    own : All IsOwn p.sent
    order : first_arrivals [] (map sent_id p.sent) ≡ p.message_ids

  map-append_one :
      (sent : List (String × Bytes)) (m : String × Bytes)
      → map sent_id (sent ++ m ∷ []) ≡ map sent_id sent ++ m.0 ∷ []
  map-append_one [] m = refl
  map-append_one (x ∷ xs) m = ap (λ ys. x.0 ∷ ys) (map-append_one xs m)

  module _ (bound : ℕ) (random : IsRandom bound d)
      (uuids : (i : ℕ) → i < bound → IsFit bound (d.uuid4 i)) where
    order-send_event :
        (p : Publisher) (m : String) (body : Bytes)
        → IsOrderly bound p
        → first_arrivals [] (map sent_id (p.sent ++ (m, body) ∷ [])) ≡ arrive_at p.message_ids m
    order-send_event p m body h =
        ap (first_arrivals []) (map-append_one p.sent (m, body))
        ∙ first_arrivals-append [] (map sent_id p.sent) m
        ∙ ap (λ ids. arrive_at ids m) h.order

    IsOwn-send_event :
        (i : ℕ) (p : Publisher) (m : String)
        → i < bound
        → IsFit bound m
        → All IsOwn p.sent
        → All IsOwn (p.sent ++ (m, event_body codec m event_type (d.payload i)) ∷ [])
    unfolding IsOwn
    IsOwn-send_event i p m lt fit h =
        All-append IsOwn p.sent ((m, event_body codec m event_type (d.payload i)) ∷ []) h
          ((fit.text, (d.payload i, refl, fit.reads i lt)), tt)

    fresh-IsOrderly :
        (i : ℕ) (p : Publisher)
        → i < bound
        → contains (d.uuid4 i) p.message_ids ≡ false
        → IsOrderly bound p
        → IsOrderly bound (
            send_event codec d duplicates event_type i (fresh_id codec d duplicates event_type i p))
    unfolding fresh_id
    fresh-IsOrderly i p lt new h = record {
      ids = All-append (IsFit bound) p.message_ids (d.uuid4 i ∷ []) h.ids (uuids i lt, tt);
      own = IsOwn-send_event i p (d.uuid4 i) lt (uuids i lt) h.own;
      order =
          order-send_event p (d.uuid4 i) (event_body codec (d.uuid4 i) event_type (d.payload i)) h
          ∙ rw new refl;
    }

    pick-IsOrderly :
        (i : ℕ) (p : Publisher) (ids : List String)
        → p.message_ids ≡ ids
        → i < bound
        → contains (d.uuid4 i) p.message_ids ≡ false
        → IsOrderly bound p
        → IsOrderly bound (
            send_event codec d duplicates event_type i
              (pick_id codec d duplicates event_type i p ids))
    unfolding pick_id
    pick-IsOrderly i p [] e lt new h = fresh-IsOrderly i p lt new h
    pick-IsOrderly i p (x ∷ xs) e lt new h = elim (Bool-cases (duplicates && d.reuses i)) [
      | inr fresh ↦ rw (fresh, pick_id) (fresh-IsOrderly i p lt new h)
      | inl again ↦
          let m = d.choice i x xs in
          let there : contains m p.message_ids ≡ true = rw e (random.chosen i x xs) in
          rw (again, pick_id)
            (record {
              ids = h.ids;
              own =
                  IsOwn-send_event i p m lt (contains-All (IsFit bound) m p.message_ids h.ids there)
                    h.own;
              order =
                  order-send_event p m (event_body codec m event_type (d.payload i)) h
                  ∙ rw there refl;
            })
    ]

    publish_from-IsOrderly :
        (i count : ℕ) (p : Publisher)
        → i + count ≤ bound
        → IsTallied codec d bound random duplicates event_type i p
        → IsOrderly bound p
        → IsOrderly bound (publish_from codec d duplicates event_type i count p)
    unfolding publish_from publish_one
    publish_from-IsOrderly i zero p room t h = h
    publish_from-IsOrderly i (suc count) p room t h =
        publish_from-IsOrderly (suc i) count _ (omega (arith, room))
          (pick-IsTallied codec d bound random duplicates event_type i p p.message_ids refl
            (omega (arith, room)) t)
          (pick-IsOrderly i p p.message_ids refl (omega (arith, room))
            (t.later_new i (omega arith) (omega (arith, room))) h)

    publish-IsOrderly :
        (count : ℕ) → count ≤ bound → IsOrderly bound (publish codec d duplicates event_type count)
    unfolding publish
    publish-IsOrderly count le =
        publish_from-IsOrderly 0 count no_messages (omega (arith, le))
          (no_messages-IsTallied codec d bound random duplicates event_type)
          (record { ids = tt; own = tt; order = refl })

  own-Carries :
      (s : Settings) (intakes : ℕ → IntakeEnv) (enriches : ℕ → EnrichEnv) (i : ℕ)
      (sent : List (String × Bytes))
      → fits_column event_type ≡ true
      → All (λ m. length m.1 ≤ s.consumer_max_message_bytes) sent
      → All IsOwn sent
      → Carries s codec (map sent_id sent) (queued intakes enriches i sent)
  unfolding IsOwn event_body
  own-Carries s intakes enriches i [] ft small h = tt
  own-Carries s intakes enriches i ((m, body) ∷ rest) ft small ((text, (payload, e, reads)), own) =
      (
        (
          record { message_id = m; event_type = event_type; payload = payload },
          refl,
          record {
            value = event_value m event_type payload;
            small = small.0;
            loaded = ap codec.loads e ∙ reads;
            parsed =
                parse_event-body m event_type (intakes i).new_message_id payload text.not_empty
                  text.fits ft;
          },
        ),
        own-Carries s intakes enriches (suc i) rest ft small.1 own,
      )

-- What the script sends, handled one message behind the other from tables without events whose
-- column `reconcile_count` has its server default, whatever clocks, ids and answers of the provider:
-- the stored events are exactly the ids that the script listed, each once and in that order, however
-- many duplicates it sent. The uuids of its turns differ and fit, a choice is an element of its list,
-- the event type fits its column, the codec reads back these messages, and each is within the size
-- limit.
pub publish-stored_ids :
    (s : Settings) (codec : Codec) (d : Chances) (duplicates : Bool) (event_type : String)
    (count : ℕ) (intakes : ℕ → IntakeEnv) (enriches : ℕ → EnrichEnv) (c : Consumer)
    → IsRandom count d
    → ((i : ℕ) → i < count → IsFit codec d duplicates event_type count (d.uuid4 i))
    → fits_column event_type ≡ true
    → All
        (λ m. length m.1 ≤ s.consumer_max_message_bytes)
        (publish codec d duplicates event_type count).sent
    → IsMigrated c.database
    → stored_ids c.database ≡ []
    → let p = publish codec d duplicates event_type count in
      stored_ids (handle_all s codec (queued intakes enriches 0 p.sent) c).database ≡ p.message_ids
publish-stored_ids s codec d duplicates event_type count intakes enriches c random uuids ft small
      ready empty_tables =
    let p = publish codec d duplicates event_type count in
    let h =
      publish-IsOrderly codec d duplicates event_type count random uuids count (omega arith) in
    handle_all-first_arrivals s codec (map sent_id p.sent) (queued intakes enriches 0 p.sent) c
      (own-Carries codec d duplicates event_type s intakes enriches 0 p.sent ft small h.own) ready
    ∙ ap (λ ids. first_arrivals ids (map sent_id p.sent)) empty_tables
    ∙ h.order
