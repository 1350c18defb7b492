-- ===== src/Delivery/Worker/Jobs.antt =====
-- Any sequence of the worker's jobs.
use unith_task.Prelude.{ℕ, ◌≡◌, refl, ◌∙◌, ◌⊎◌, some, List, [], ◌∷◌, arith, All}
use unith_task.Config.{Settings}
use unith_task.Runtime.{Runtime}
use unith_task.Db.{DeliveryStatus, delivered, dead, DeliveryAttempt, find_attempt}
use unith_task.Db.Table.{IsScan}
use unith_task.Db.Lookup.{IsKeyed, update-IsKeyed}
use unith_task.Delivery.Claim.{Worker, claim_batch, reset_stale_in_flight, reset_row}
use unith_task.Delivery.Worker.{Job, reset, batch, process_batch, work, run_jobs}
use unith_task.Delivery.Worker.Recovery.{reset_stale_in_flight_lem}
use unith_task.Delivery.Worker.Batch.Claims.{claim_batch_other, claim_batch-IsKeyed}
use unith_task.Delivery.Worker.Batch.Runs.{
  claim_avoids, deliver_claimed_other, deliver_claimed-IsKeyed,
}

abbrev pub IsTerminal : DeliveryStatus → Type 0
IsTerminal st = (st ≡ delivered) ⊎ (st ≡ dead)

-- The queries of a job choose among the rows of the table.
abbrev pub IsFair : Job → Type 0
IsFair (reset now) = Unit {0}
IsFair (batch scan now envs) = IsScan scan

module _ (s : Settings) (rt : Runtime) where
  work-IsKeyed : (j : Job) (w : Worker) → IsKeyed w.database → IsKeyed (work s rt j w).database
  unfolding work reset_stale_in_flight process_batch
  work-IsKeyed (reset now) w k = update-IsKeyed _ (reset_row now) w.database (λ x. refl) k
  work-IsKeyed (batch scan now envs) w k =
      deliver_claimed-IsKeyed s rt envs (claim_batch scan now w.database) w k
        (claim_batch-IsKeyed scan now w.database k)

  work-IsTerminal :
      (j : Job) (w : Worker) (i : ℕ) {a : DeliveryAttempt}
      → IsFair j
      → IsKeyed w.database
      → find_attempt i w.database ≡ some a
      → IsTerminal a.status
      → find_attempt i (work s rt j w).database ≡ some a
  unfolding work process_batch
  work-IsTerminal (reset now) w i {a} fair keyed e t =
      ground (arith, (reset_stale_in_flight_lem s now i w.database).1)
  work-IsTerminal (batch scan now envs) w i {a} fair keyed e t =
      let ne = claim_avoids scan now i w.database fair keyed e (ground arith) in
      deliver_claimed_other s rt i envs (claim_batch scan now w.database) w ne
        (claim_batch_other scan fair now i w.database ne)
      ∙ e

  -- Whatever clean-ups and batches the worker runs, in any order and with any answers, a row that
  -- is delivered or dead stays exactly as it is: it is never sent, counted or rescheduled again.
  -- The ids of the table are unique, and a query returns only rows that meet its condition.
  pub run_jobs-IsTerminal :
      (js : List Job) (w : Worker) (i : ℕ) {a : DeliveryAttempt}
      → All IsFair js
      → IsKeyed w.database
      → find_attempt i w.database ≡ some a
      → IsTerminal a.status
      → find_attempt i (run_jobs s rt js w).database ≡ some a
  unfolding run_jobs
  run_jobs-IsTerminal [] w i fair keyed e t = e
  run_jobs-IsTerminal (j ∷ js) w i fair keyed e t =
      run_jobs-IsTerminal js (work s rt j w) i fair.1 (work-IsKeyed j w keyed)
        (work-IsTerminal j w i fair.0 keyed e t) t
