-- ===== src/Consumer/Reconciler/Abort.antt =====
-- A round that an exception of a publication leaves.
use unith_task.Prelude.{
  ℕ, ◌≡◌, refl, ap, ◌∙◌, String, Bytes, false, List, [], ◌∷◌, ◌++◌, map, leb, All,
}
use unith_task.Prelude.Result.{raised, exception}
use unith_task.Config.{Settings}
use unith_task.Json.{Codec}
use unith_task.Db.{IdempotencyKey, Database}
use unith_task.Consumer.Reconciler.{
  Publish, published, publish_error, Round, publish_row, event_body, stale_rows, reconcile_rows,
  commit_round, reconcile,
}

abbrev pub body_of : Codec → IdempotencyKey → Bytes
body_of codec k = event_body codec k.message_id k.event_type k.raw_payload

module _ (s : Settings) (codec : Codec) (publish : IdempotencyKey → Publish) where
  -- A row below the limit, whose publication succeeds.
  abbrev pub IsSent : IdempotencyKey → Type 0
  IsSent k = (leb s.reconciler_max_attempts k.reconcile_count ≡ false) × (publish k ≡ published)

  reconcile_rows_aborted :
      (ks : List IdempotencyKey) (bad : IdempotencyKey) (rest : List IdempotencyKey) (exc : String)
      → leb s.reconciler_max_attempts bad.reconcile_count ≡ false
      → publish bad ≡ publish_error exc
      → All IsSent ks
      → reconcile_rows s codec publish (ks ++ bad ∷ rest)
        ≡ record { sent = map (body_of codec) ks; changes = raised (exception exc) }
  unfolding reconcile_rows publish_row
  reconcile_rows_aborted [] bad rest exc room fails h = rw (room, fails, reconcile_rows) refl
  reconcile_rows_aborted (k ∷ ks) bad rest exc room fails h =
      rw (h.0.0, h.0.1, reconcile_rows)
        (ap (λ r. publish_row s codec k published r)
          (reconcile_rows_aborted ks bad rest exc room fails h.1))

  -- When a publication raises, behind rows whose messages were published, those messages stay in the
  -- queue but no row is changed: none of them counts as a cycle, so the limit on the cycles of an
  -- event does not bound how often it is published.
  pub reconcile_aborted :
      (scan : ℕ → List IdempotencyKey → List IdempotencyKey) (now : ℕ) (db : Database)
      (ks : List IdempotencyKey) (bad : IdempotencyKey) (rest : List IdempotencyKey) (exc : String)
      → stale_rows s codec scan now db ≡ ks ++ bad ∷ rest
      → leb s.reconciler_max_attempts bad.reconcile_count ≡ false
      → publish bad ≡ publish_error exc
      → All IsSent ks
      → reconcile s codec scan publish now db ≡ (map (body_of codec) ks, db)
  unfolding reconcile
  reconcile_aborted scan now db ks bad rest exc loaded room fails h =
      ap (λ (r : Round). (r.sent, commit_round s codec r.changes db))
        (ap (reconcile_rows s codec publish) loaded
          ∙ reconcile_rows_aborted ks bad rest exc room fails h)
