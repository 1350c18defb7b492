-- ===== src/Examples/Sending.antt =====
-- The script that sends test events.
use unith_task.Prelude.{
  ℕ, zero, suc, ◌<◌, ◌≡◌, refl, String, Bytes, true, false, some, [], ◌∷◌, arith, str_eq,
  str_eq_refl, Option, text_length, if◌then◌else◌, ◌==◌,
}
use unith_task.Config.{settings}
use unith_task.Json.{Value, Codec, text, object, get}
use unith_task.Db.{fits_column, no_rows}
use unith_task.Enricher.{transient}
use unith_task.Consumer.Handler.Arrivals.{stored_ids, handle_all}
use unith_task.Consumer.Reconciler.{event_value, event_body}
use unith_task.Scripts.{Chances, publish, publish_from, publish_one, pick_id, fresh_id}
use unith_task.Scripts.Counts.{IsRandom}
use unith_task.Scripts.Stored.{IsFit, queued, publish-stored_ids}
use unith_task.Examples.Data.{payload, consumer, intake_env, enrich_env}

-- The second turn draws the first id again.
abbrev draws : Chances
draws = record {
  reuses = λ i. i == 1;
  choice = λ i x xs. x;
  uuid4 = λ i. if i == 0 then "m1" else "m2";
  payload = λ i. payload;
}

different_turns : (i j : ℕ) → i < j → j < 2 → str_eq (draws.uuid4 i) (draws.uuid4 j) ≡ false
unfolding str_eq
different_turns zero zero lt lt' = absurd (omega (arith, lt))
different_turns zero (suc zero) lt lt' = refl
different_turns zero (suc (suc j)) lt lt' = absurd (omega (arith, lt'))
different_turns (suc i) j lt lt' = absurd (omega (arith, lt, lt'))

draws-IsRandom : IsRandom 2 draws
unfolding str_eq
draws-IsRandom = record {
  chosen = λ i x xs. ground (arith, str_eq_refl x);
  apart = different_turns;
}

abbrev text_of : Option Value → String
text_of (some (text m)) = m
text_of _ = ""

abbrev id_text : Value → String
id_text (object d) = text_of (get "message_id" d)
id_text _ = ""

abbrev first : Bytes → ℕ
first [] = 0
first (b ∷ bs) = b

abbrev sender_codec : Codec
sender_codec = record {
  dumps = λ v. if str_eq (id_text v) "m1" then 1 ∷ [] else 2 ∷ [];
  dumps_compact = λ v. [];
  loads = λ b. some (event_value (if first b == 1 then "m1" else "m2") "order.placed" payload);
}

uuids-IsFit : (i : ℕ) → i < 2 → IsFit sender_codec draws true "order.placed" 2 (draws.uuid4 i)
unfolding str_eq fits_column text_length get
uuids-IsFit zero lt = record {
  text = record { not_empty = refl; fits = refl };
  reads = λ i lt'. refl;
}
uuids-IsFit (suc zero) lt = record {
  text = record { not_empty = refl; fits = refl };
  reads = λ i lt'. refl;
}
uuids-IsFit (suc (suc i)) lt = absurd (omega (arith, lt))

publish-stored_ids_example :
    let p = publish sender_codec draws true "order.placed" 2 in
    stored_ids
      (handle_all settings sender_codec
        (queued intake_env (λ i. enrich_env (transient "busy")) 0 p.sent)
        (consumer no_rows)).database
    ≡ p.message_ids
unfolding fits_column text_length publish publish_from publish_one pick_id fresh_id event_body
    str_eq get
publish-stored_ids_example =
    publish-stored_ids settings sender_codec draws true "order.placed" 2 intake_env
      (λ i. enrich_env (transient "busy")) (consumer no_rows) draws-IsRandom uuids-IsFit refl
      (omega arith, (omega arith, tt)) refl refl
