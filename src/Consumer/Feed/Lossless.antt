-- ===== src/Consumer/Feed/Lossless.antt =====
-- No message gets lost between the queue and the table of the events.
use mathlib.Core.List.{Memᴰ}
use mathlib.Core.Path.{subst}
use unith_task.Prelude.{
  ℕ, ◌≡◌, refl, sym, String, Bytes, Option, none, some, List, [], ◌∷◌, ◌⊎◌, inl, inr, Option-cases,
}
use unith_task.Config.{Settings}
use unith_task.Json.{Codec}
use unith_task.Db.{Database, find_key}
use unith_task.Consumer.Intake.{IntakeEnv, Event, receive}
use unith_task.Consumer.Intake.Stored.{
  IsMigrated, receive_event, store_event_known, store_event_new,
}
use unith_task.Consumer.Handler.Idempotency.{IsStored, Decodes, find_key-intake_of}
use unith_task.Consumer.Service.{
  Service, Step, arrive, resume, restart, begin_round, end_round, pick, step,
}
use unith_task.Consumer.Service.Attempts.{step-IsMigrated}
use unith_task.Consumer.Service.Permanence.{step-Stays}
use unith_task.Consumer.Service.Unique.{start_task-database}
use unith_task.Consumer.Feed.Picks.{Mem-append, IsLeft, pick-IsLeft, pick-Mem}
use unith_task.Consumer.Feed.{
  Feed, Turn, publish_body, take_message, die_unacked, come_back, die, start_round, commit_all,
  handle_taken, lose_ack, turn, run_turns,
}

abbrev pub tables_of : Feed → Database
tables_of f = f.service.consumer.database

module _ (s : Settings) (codec : Codec) (m : String) where
  -- No turn removes an event.
  step-IsStored :
      (t : Step) (v : Service)
      → IsStored m v.consumer.database
      → IsStored m (step s codec t v).consumer.database
  step-IsStored t v (k, e) = let (k', e', same) = step-Stays s codec m t v k e in (k', e')

  handle_taken-IsStored :
      (env : IntakeEnv) (o : Option (Bytes × List Bytes)) (f : Feed)
      → IsStored m (tables_of f)
      → IsStored m (tables_of (handle_taken s codec env o f))
  unfolding handle_taken
  handle_taken-IsStored env none f h = h
  handle_taken-IsStored env (some (b, rest)) f h = step-IsStored (arrive env b) f.service h

  lose_ack-IsStored :
      (env : IntakeEnv) (o : Option (Bytes × List Bytes)) (f : Feed)
      → IsStored m (tables_of f)
      → IsStored m (tables_of (lose_ack s codec env o f))
  unfolding lose_ack
  lose_ack-IsStored env none f h = h
  lose_ack-IsStored env (some (b, rest)) f h =
      step-IsStored restart _ (step-IsStored (arrive env b) f.service h)

  turn-IsStored :
      (t : Turn) (f : Feed) → IsStored m (tables_of f) → IsStored m (tables_of (turn s codec t f))
  unfolding turn
  turn-IsStored (publish_body body) f h = h
  turn-IsStored (take_message i env) f h = handle_taken-IsStored env (pick i f.queue) f h
  turn-IsStored (die_unacked i env) f h = lose_ack-IsStored env (pick i f.queue) f h
  turn-IsStored (come_back i env) f h = step-IsStored (resume i env) f.service h
  turn-IsStored die f h = step-IsStored restart f.service h
  turn-IsStored (start_round scan publish now) f h =
      step-IsStored (begin_round scan publish now) f.service h
  turn-IsStored commit_all f h = step-IsStored end_round f.service h

module _ (s : Settings) (codec : Codec) where
  handle_taken-IsMigrated :
      (env : IntakeEnv) (o : Option (Bytes × List Bytes)) (f : Feed)
      → IsMigrated (tables_of f)
      → IsMigrated (tables_of (handle_taken s codec env o f))
  unfolding handle_taken
  handle_taken-IsMigrated env none f h = h
  handle_taken-IsMigrated env (some (b, rest)) f h =
      step-IsMigrated s codec (arrive env b) f.service h

  lose_ack-IsMigrated :
      (env : IntakeEnv) (o : Option (Bytes × List Bytes)) (f : Feed)
      → IsMigrated (tables_of f)
      → IsMigrated (tables_of (lose_ack s codec env o f))
  unfolding lose_ack
  lose_ack-IsMigrated env none f h = h
  lose_ack-IsMigrated env (some (b, rest)) f h =
      step-IsMigrated s codec restart _ (step-IsMigrated s codec (arrive env b) f.service h)

  -- No turn changes a column.
  turn-IsMigrated :
      (t : Turn) (f : Feed) → IsMigrated (tables_of f) → IsMigrated (tables_of (turn s codec t f))
  unfolding turn
  turn-IsMigrated (publish_body body) f h = h
  turn-IsMigrated (take_message i env) f h = handle_taken-IsMigrated env (pick i f.queue) f h
  turn-IsMigrated (die_unacked i env) f h = lose_ack-IsMigrated env (pick i f.queue) f h
  turn-IsMigrated (come_back i env) f h = step-IsMigrated s codec (resume i env) f.service h
  turn-IsMigrated die f h = step-IsMigrated s codec restart f.service h
  turn-IsMigrated (start_round scan publish now) f h =
      step-IsMigrated s codec (begin_round scan publish now) f.service h
  turn-IsMigrated commit_all f h = step-IsMigrated s codec end_round f.service h

module _ (s : Settings) (codec : Codec) (body : Bytes) (e : Event) where
  arrive-IsStored :
      (env : IntakeEnv) (v : Service)
      → Decodes s codec env body e
      → IsMigrated v.consumer.database
      → IsStored e.message_id (step s codec (arrive env body) v).consumer.database
  unfolding step
  arrive-IsStored env v d ready =
      let c = v.consumer in
      rw
        (
          start_task-database (receive s codec env body c) v,
          receive_event s codec env body c d.small d.loaded d.parsed,
        )
        (elim (Option-cases (find_key e.message_id c.database)) [
          | inl new ↦ rw (store_event_new env e c ready new) (_, find_key-intake_of env e c new)
          | inr (k, known) ↦ rw (store_event_known env e c ready known) (k, known)
        ])

  -- The message waits, or its event is stored.
  abbrev pub IsSafe : Feed → Type 0
  IsSafe f = Memᴰ body f.queue ⊎ IsStored e.message_id (tables_of f)

  module _ (decodes : (env : IntakeEnv) → Decodes s codec env body e) where
    handle_taken-IsSafe :
        (env : IntakeEnv) (o : Option (Bytes × List Bytes)) (f : Feed)
        → Memᴰ body f.queue
        → IsLeft body o
        → IsMigrated (tables_of f)
        → IsSafe (handle_taken s codec env o f)
    unfolding handle_taken
    handle_taken-IsSafe env none f h left ready = inl h
    handle_taken-IsSafe env (some (b, rest)) f h (inl same) ready = inr (
        subst (λ b. IsStored e.message_id (step s codec (arrive env b) f.service).consumer.database)
          same (arrive-IsStored env f.service (decodes env) ready))
    handle_taken-IsSafe env (some (b, rest)) f h (inr left) ready = inl left

    lose_ack-queue :
        (env : IntakeEnv) (o : Option (Bytes × List Bytes)) (f : Feed)
        → (lose_ack s codec env o f).queue ≡ f.queue
    unfolding lose_ack
    lose_ack-queue env none f = refl
    lose_ack-queue env (some (b, rest)) f = refl

    waiting-IsSafe :
        (t : Turn) (f : Feed)
        → Memᴰ body f.queue
        → IsMigrated (tables_of f)
        → IsSafe (turn s codec t f)
    unfolding turn
    waiting-IsSafe (publish_body b) f h ready = inl (Mem-append body f.queue (b ∷ []) h)
    waiting-IsSafe (take_message i env) f h ready =
        handle_taken-IsSafe env (pick i f.queue) f h (pick-IsLeft body i f.queue h) ready
    waiting-IsSafe (die_unacked i env) f h ready =
        inl (subst (Memᴰ body) (sym (lose_ack-queue env (pick i f.queue) f)) h)
    waiting-IsSafe (come_back i env) f h ready = inl h
    waiting-IsSafe die f h ready = inl h
    waiting-IsSafe (start_round scan publish now) f h ready = inl (Mem-append body f.queue _ h)
    waiting-IsSafe commit_all f h ready = inl h

    turn-IsSafe :
        (t : Turn) (f : Feed) → IsSafe f → IsMigrated (tables_of f) → IsSafe (turn s codec t f)
    turn-IsSafe t f (inl h) ready = waiting-IsSafe t f h ready
    turn-IsSafe t f (inr h) ready = inr (turn-IsStored s codec e.message_id t f h)

    run_turns-IsSafe :
        (ts : List Turn) (f : Feed)
        → IsSafe f
        → IsMigrated (tables_of f)
        → IsSafe (run_turns s codec ts f) × IsMigrated (tables_of (run_turns s codec ts f))
    unfolding run_turns
    run_turns-IsSafe [] f h ready = (h, ready)
    run_turns-IsSafe (t ∷ ts) f h ready =
        run_turns-IsSafe ts (turn s codec t f) (turn-IsSafe t f h ready)
          (turn-IsMigrated s codec t f ready)

    taken-IsStored :
        (f : Feed)
        → Memᴰ body f.queue
        → IsMigrated (tables_of f)
        → (i : ℕ) × ((env : IntakeEnv)
            → IsStored e.message_id (tables_of (turn s codec (take_message i env) f)))
    unfolding turn handle_taken
    taken-IsStored f h ready =
        let (i, rest, e') = pick-Mem body f.queue h in
        (i, λ env. rw e' (arrive-IsStored env f.service (decodes env) ready))

    -- Over every sequence of turns (messages that arrive, are taken, and whose ACK gets lost when the
    -- process dies; answers of the provider, deaths and rounds of the reconciler), a message that
    -- waits in the queue, is within the size limit and decodes to an event is not lost, where the
    -- column `reconcile_count` has its server default: behind the
    -- turns its event is stored, or the message waits at a position where the next handler that
    -- takes it stores the event.
    pub run_turns-lossless :
        (ts : List Turn) (f : Feed)
        → Memᴰ body f.queue
        → IsMigrated (tables_of f)
        → let f' = run_turns s codec ts f in
          IsStored e.message_id (tables_of f')
          ⊎ ((i : ℕ) × ((env : IntakeEnv)
                → IsStored e.message_id (tables_of (turn s codec (take_message i env) f'))))
    run_turns-lossless ts f h ready =
        let (safe, still) = run_turns-IsSafe ts f (inl h) ready in
        elim safe [
          | inl waits ↦ inr (taken-IsStored (run_turns s codec ts f) waits still)
          | inr stored ↦ inl stored
        ]
