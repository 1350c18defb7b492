-- ===== src/Consumer/Handler/Arrivals.antt =====
-- The messages of a queue, handled one behind the other: which events are stored.
use unith_task.Prelude.{
  ℕ, ◌≡◌, refl, sym, ap, ◌∙◌, inl, inr, String, Bytes, Bool, true, false, List, [], ◌∷◌, ◌++◌, map,
  arith, if◌then◌else◌, Option-cases, Bool-cases,
}
use unith_task.Prelude.Distinct.{contains, arrive_at, first_arrivals}
use unith_task.Prelude.Result.{Result, ok, raised}
use unith_task.Config.{Settings}
use unith_task.Json.{Codec}
use unith_task.Db.{IdempotencyKey, Database, has_key, find_key, is_none}
use unith_task.Db.Table.{find_row, update_rows}
use unith_task.Enricher.{Enrichment, enriched, transient, fatal, crashed, Provider}
use unith_task.Consumer.Intake.{Consumer, IntakeEnv, Event, new_key}
use unith_task.Consumer.Intake.Stored.{IsMigrated}
use unith_task.Consumer.Handler.{
  Handled, EnrichEnv, settle, run_provider, enrich_event, enriched_row, error_row, handle_message,
}
use unith_task.Consumer.Handler.Idempotency.{
  Decodes, intake_of, handle_message_known, handle_message_new, handle_message_fresh,
  handle_message-IsMigrated,
}

-- A message of the queue, and what its handler draws from outside.
pub record Delivery : Type 0 where
  pub body : Bytes
  pub intake : IntakeEnv
  pub enrich : EnrichEnv

abbrev pub key_id : IdempotencyKey → String
key_id k = k.message_id

-- The primary keys of the events, in the order of their rows.
abbrev pub stored_ids : Database → List String
stored_ids db = map key_id db.idempotency_keys

find_row-contains :
    (m : String) (rows : List IdempotencyKey)
    → is_none (find_row (has_key m) rows) ≡ (if contains m (map key_id rows) then false else true)
unfolding find_row
find_row-contains m [] = refl
find_row-contains m (k ∷ ks) = ground (arith, find_row-contains m ks)

find_key-contains :
    (m : String) (db : Database)
    → is_none (find_key m db) ≡ (if contains m (stored_ids db) then false else true)
unfolding find_key
find_key-contains m db = find_row-contains m db.idempotency_keys

map-update_rows :
    (p : IdempotencyKey → Bool) (f : IdempotencyKey → IdempotencyKey) (rows : List IdempotencyKey)
    → ((k : IdempotencyKey) → (f k).message_id ≡ k.message_id)
    → map key_id (update_rows p f rows) ≡ map key_id rows
unfolding update_rows
map-update_rows p f [] keep = refl
map-update_rows p f (k ∷ ks) keep = ground (arith, keep k, map-update_rows p f ks keep)

settle-stored_ids :
    (now : ℕ) (m : String) (o : Enrichment) (c : Consumer)
    → stored_ids (settle now m o c).1.database ≡ stored_ids c.database
unfolding settle
settle-stored_ids now m (enriched ev) c =
    map-update_rows (has_key m) (enriched_row now ev.enriched_payload) c.database.idempotency_keys
      (λ k. refl)
settle-stored_ids now m (transient x) c = refl
settle-stored_ids now m (fatal x) c =
    map-update_rows (has_key m) (error_row x) c.database.idempotency_keys (λ k. refl)
settle-stored_ids now m (crashed x) c = refl

run_provider-stored_ids :
    (env : EnrichEnv) (e : Event) (p : Result Provider) (c : Consumer)
    → stored_ids (run_provider env e p c).1.database ≡ stored_ids c.database
unfolding run_provider
run_provider-stored_ids env e (raised x) c = refl
run_provider-stored_ids env e (ok p) c = settle-stored_ids env.now e.message_id _ _

enrich_event-stored_ids :
    (s : Settings) (env : EnrichEnv) (e : Event) (c : Consumer)
    → stored_ids (enrich_event s env e c).1.database ≡ stored_ids c.database
unfolding enrich_event
enrich_event-stored_ids s env e c = run_provider-stored_ids env e _ c

map-append_one :
    (ks : List IdempotencyKey) (k : IdempotencyKey)
    → map key_id (ks ++ k ∷ []) ≡ map key_id ks ++ key_id k ∷ []
map-append_one [] k = refl
map-append_one (x ∷ ks) k = ap (λ ys. x.message_id ∷ ys) (map-append_one ks k)

module _ (s : Settings) (codec : Codec) where
  -- Each handler starts behind the end of the last one.
  unfoldable pub handle_all : List Delivery → Consumer → Consumer
  handle_all [] c = c
  handle_all (d ∷ ds) c = handle_all ds (handle_message s codec d.intake d.enrich d.body c).consumer

  -- The messages are of events with these ids.
  abbrev pub Carries : List String → List Delivery → Type 0
  Carries [] [] = Unit
  Carries [] (d ∷ ds) = ⊥
  Carries (m ∷ ms) [] = ⊥
  Carries (m ∷ ms) (d ∷ ds) =
      ((e : Event) × (e.message_id ≡ m) × Decodes s codec d.intake d.body e) × Carries ms ds

  handle_message-stored_ids :
      (d : Delivery) (e : Event) (c : Consumer)
      → Decodes s codec d.intake d.body e
      → IsMigrated c.database
      → stored_ids (handle_message s codec d.intake d.enrich d.body c).consumer.database
        ≡ arrive_at (stored_ids c.database) e.message_id
  unfolding new_key
  handle_message-stored_ids d e c h ready =
      let known = find_key-contains e.message_id c.database in
      elim (Option-cases (find_key e.message_id c.database)) [
        | inr (k, found) ↦
            rw (handle_message_known s codec d.body e d.intake d.enrich c h ready (k, found))
              (ground (arith, known, found))
        | inl new ↦ rw (handle_message_new s codec d.body e d.intake d.enrich c h ready new) (
            enrich_event-stored_ids s d.enrich e (intake_of d.intake e c)
            ∙ map-append_one c.database.idempotency_keys (new_key d.intake.now e)
            ∙ ground (arith, known, new))
      ]

  -- Behind the rows of before there is one row for each new message id, in the order in which the
  -- ids first came, where the column `reconcile_count` has its server default.
  pub handle_all-first_arrivals :
      (ms : List String) (ds : List Delivery) (c : Consumer)
      → Carries ms ds
      → IsMigrated c.database
      → stored_ids (handle_all ds c).database ≡ first_arrivals (stored_ids c.database) ms
  unfolding handle_all
  handle_all-first_arrivals [] [] c h ready = refl
  handle_all-first_arrivals [] (d ∷ ds) c h ready = absurd h
  handle_all-first_arrivals (m ∷ ms) [] c h ready = absurd h
  handle_all-first_arrivals (m ∷ ms) (d ∷ ds) c ((e, same, one), rest) ready =
      handle_all-first_arrivals ms ds _ rest
        (handle_message-IsMigrated s codec d.body e d.intake d.enrich c one ready)
      ∙ ap (λ ids. first_arrivals ids ms)
          (handle_message-stored_ids d e c one ready ∙ ap (arrive_at (stored_ids c.database)) same)

  handle_all_fresh :
      (ms : List String) (ds : List Delivery) (c : Consumer)
      → Carries ms ds
      → c.database.has_count_default ≡ false
      → handle_all ds c ≡ c
  unfolding handle_all
  handle_all_fresh [] [] c h fresh = refl
  handle_all_fresh [] (d ∷ ds) c h fresh = absurd h
  handle_all_fresh (m ∷ ms) [] c h fresh = absurd h
  handle_all_fresh (m ∷ ms) (d ∷ ds) c ((e, same, one), rest) fresh =
      ap (λ (h : Handled). handle_all ds h.consumer)
        (handle_message_fresh s codec d.body e d.intake d.enrich c one fresh)
      ∙ handle_all_fresh ms ds c rest fresh

  -- Messages that decode are handled one behind the other, from any tables, and with any clocks, ids
  -- and answers of the provider. Where the column `reconcile_count` has its server default, there is
  -- then, behind the rows of before, one row for each new message id, in the order in which the ids
  -- first came. Where it has none, no event is stored.
  pub handle_all-stored_ids :
      (ms : List String) (ds : List Delivery) (c : Consumer)
      → Carries ms ds
      → stored_ids (handle_all ds c).database ≡ (
          if c.database.has_count_default
          then first_arrivals (stored_ids c.database) ms
          else stored_ids c.database)
  handle_all-stored_ids ms ds c h =
      let ids : Bool → List String =
        λ b. if b then first_arrivals (stored_ids c.database) ms else stored_ids c.database in
      elim (Bool-cases c.database.has_count_default) [
        | inl ready ↦ handle_all-first_arrivals ms ds c h ready ∙ sym (ap ids ready)
        | inr fresh ↦
            ap (λ (x : Consumer). stored_ids x.database) (handle_all_fresh ms ds c h fresh)
            ∙ sym (ap ids fresh)
      ]
