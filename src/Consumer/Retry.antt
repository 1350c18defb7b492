-- ===== src/Consumer/Retry.antt =====
-- `_enrich_with_retry` of app/consumer/rabbitmq.py: the loop that its decorator describes. It calls
-- the provider again after a TransientEnrichmentError, three times in all, and then lets the last
-- error through (`reraise=True`). The waits between the calls change no state and are left out.
pub mod Calls
use unith_task.Prelude.{ℕ, zero, suc}
use unith_task.Enricher.{Enrichment, transient}

-- `call i` is the outcome of the i-th call; `left` counts the calls after this one.
unfoldable pub retrying : ℕ → ℕ → (ℕ → Enrichment) → Enrichment
retrying zero i call = call i
retrying (suc left) i call = elim (call i) [
  | transient e ↦ retrying left (suc i) call
  | other ↦ other
]

-- stop_after_attempt(3)
unfoldable pub enrich_with_retry : (ℕ → Enrichment) → Enrichment
unfolding retrying
enrich_with_retry call = retrying 2 0 call
