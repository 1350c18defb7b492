-- ===== src/Lib.antt =====
-- An event pipeline: a REST API queues events in RabbitMQ; a consumer stores each event once, makes
-- one delivery attempt for each subscriber and has the payload enriched by a language model; a worker
-- sends the attempts to the subscribers' webhooks, signed, with retries; a receiver shows what came.
--
-- How the parts meet. API, consumer and worker share three tables (app/db/models.py); the API and the
-- reconciler of the consumer send message bodies to the queue that the consumer reads. There is no
-- other shared state; each process has counters, the consumer a provider singleton, the API a cache.
--
-- Which file models what:
--   Db, Db/*           app/db/models.py: rows as records, a table as a list, SELECT, UPDATE and lookups
--   Config             app/config.py, the settings that the modelled code reads
--   Json, Json/Laws    Python's JSON values and dicts; the codec is a parameter
--   Runtime            the codec, HMAC-SHA256 and str(uuid), as one parameter
--   Delivery/Signing   app/delivery/signing.py: sign, verify
--   Delivery/Sender    app/delivery/sender.py: deliver, as build_request, the client and classify
--   Delivery/Backoff   app/delivery/worker.py: _backoff_seconds
--   Delivery/Claim     app/delivery/worker.py: _reset_stale_in_flight and the claim of _process_batch
--   Delivery/Worker    app/delivery/worker.py: _deliver_attempt, _process_batch, the jobs of run
--   Enricher           app/enricher: the mock and the OpenAI provider, get_provider
--   Consumer/Intake    app/consumer/rabbitmq.py: handle_message up to its ACK
--   Consumer/Retry     app/consumer/rabbitmq.py: _enrich_with_retry, with tenacity's loop written out
--   Consumer/Handler   app/consumer/rabbitmq.py: handle_message behind its ACK, and as a whole
--   Consumer/Reconciler  app/consumer/rabbitmq.py: one round of _reconciler
--   Consumer/Service   app/consumer/rabbitmq.py: handlers, restarts and rounds as a schedule of steps
--   Consumer/Feed      app/consumer/rabbitmq.py: run over its queue, with messages settled or kept
--   Schemas            app/schemas: the request checks and the response records
--   Api/Subscribers    app/api/subscribers.py
--   Api/Events         app/api/events.py
--   Api/Deliveries     app/api/deliveries.py
--   Broker             app/broker.py, and what run of app/consumer/rabbitmq.py and the script declare
--   Server             app/main.py: the size guard, the readiness probe and the end of lifespan
--   Server/Routes      app/api/router.py and the decorators: the table of routes of create_app
--   Server/App         app/main.py: a request from its middleware to its function, and lifespan
--   Delivery/Client    app/delivery/sender.py: _get_client, close_client
--   Metrics            app/metrics.py: the gauges of the pool (counters are in the state)
--   Db/Schema, Db/Session  app/db/session.py: create_all, the column migrations, get_session, get_db
--   Consumer/Supervision   app/consumer/rabbitmq.py: _supervised_reconciler
--   Scripts            scripts/publish_events.py: publish, and main behind its parsing
--   Receiver           receiver/main.py
--   Delivery/Lifecycle the stages of an attempt and the moves between them, as a specification
--   System             consumer, workers and API over the same tables, as interleaved transactions
--   Prelude            natural numbers, texts, lists, results and tests; Examples: concrete runs
-- The files below these hold their theorems.
--
-- How state and calls are written. A transaction is a function of the database, a handler a function
-- of its process's state; an exception is a value of Result. What a call reads from outside (clock,
-- random draws, new ids, answers of the HTTP client, of the provider and of the broker) is an argument,
-- a record such as Env or IntakeEnv, over which the theorems are quantified. Times and delays are
-- whole milliseconds; UUIDs are numbers. LIMIT and SKIP LOCKED leave the choice of the rows to the
-- database: a function `scan` of which IsScan is assumed, and IsSelection where ids matter. ORDER BY
-- keeps the table's order on ties.
--
-- What differs between deployments. `has_count_default` of the tables says whether `reconcile_count`
-- has the server default that the migration of app/db/session.py adds; the column is NOT NULL, the
-- INSERT of the intake does not name it, and a `create_all` on an empty database gives no such
-- default: there the INSERT raises and the message is rejected. Statements that an event gets stored
-- name the default as a condition. A confirmed publication reaches the queue only where the exchange is bound to it
-- (`confirmed`, else `unroutable`); the binding is the consumer's (Broker/Topology). Whether the
-- client library finds the connection closed, and whether closing it raises, are arguments (`Closing`,
-- `is_closed`).
--
-- No function needs fuel: the loops run over lists, and the retries of the provider are three calls.
-- The endless loops of run and _reconciler are lists of jobs and of steps, of any length.
--
-- A step of System is one transaction: of the consumer's schedule (Consumer/Service), of a worker (a
-- claim, the write behind a delivery, the clean-up), or of a request. A claim is held from its commit
-- until its delivery is written or its worker ends. The clean-up steps only where it finds no held
-- claim stale (Delivery/Worker/Races shows what happens otherwise), and a request's SELECT and commit
-- are one step (System/Races shows a retry that a claim overtakes).
--
-- Not modelled: the engine and the session factory that SQLAlchemy builds from the options, the
-- QoS limit of run, logging, the buckets and the exposition text of the metrics (the counters and
-- the observed durations are part of the state), waits, failures of the database other than
-- values that a column refuses and the missing default, lost broker connections other than what
-- `is_closed` and a failed publication report, a management answer whose `messages` is neither a
-- number nor null, texts with NUL and numbers such as NaN, and the end-to-end test of the scripts.
mod Prelude
pub mod Config
pub mod Json
pub mod Db
pub mod Runtime
pub mod Delivery
pub mod Enricher
pub mod Consumer
pub mod Schemas
pub mod Api
pub mod Broker
pub mod Server
pub mod Receiver
pub mod Metrics
pub mod Scripts
pub mod System
mod Examples
