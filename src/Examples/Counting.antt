-- ===== src/Examples/Counting.antt =====
-- The counters of the worker over a clean-up and two batches, and of the consumer over a
-- redelivery, a failure and a restart.
use unith_task.Prelude.{List, [], ◌∷◌, take, arith, refl, none}
use unith_task.Config.{settings}
use unith_task.Db.{pending}
use unith_task.Delivery.Worker.{Job, reset, batch, run_jobs}
use unith_task.Delivery.Worker.Counters.{IsCovered, run_jobs-IsCovered}
use unith_task.Enricher.{fatal}
use unith_task.Consumer.Service.{Service, Step, arrive, resume, restart, run_steps}
use unith_task.Consumer.Service.Counters.{IsCounted, run_steps-IsCounted}
use unith_task.Examples.Data.{
  rt, worker, env, codec, body, consumer, only_subscriber, intake_env, enrich_env,
}

abbrev three_jobs : List Job
three_jobs =
    reset 900000 ∷ batch take 900000 (λ n. env 500) ∷ batch take 9000000 (λ n. env 200) ∷ []

run_jobs-IsCovered_example : IsCovered (run_jobs settings rt three_jobs (worker pending))
run_jobs-IsCovered_example =
    run_jobs-IsCovered settings rt three_jobs (worker pending) (omega arith, refl)

abbrev fresh_service : Service
fresh_service = record { consumer = consumer only_subscriber; tasks = []; open_round = none }

abbrev deliveries : List Step
deliveries =
    arrive (intake_env 20) body
    ∷ arrive (intake_env 30) body
    ∷ resume 0 (enrich_env (fatal "down"))
    ∷ restart
    ∷ arrive (intake_env 40) body
    ∷ []

run_steps-IsCounted_example : IsCounted (run_steps settings codec deliveries fresh_service)
run_steps-IsCounted_example =
    run_steps-IsCounted settings codec deliveries fresh_service (omega arith, omega arith)
