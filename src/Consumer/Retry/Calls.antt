-- ===== src/Consumer/Retry/Calls.antt =====
-- Which call of the provider decides.
use unith_task.Prelude.{ℕ, ◌≡◌, Bool, true, false, arith, if◌then◌else◌}
use unith_task.Enricher.{Enrichment, transient}
use unith_task.Consumer.Retry.{enrich_with_retry}

abbrev pub is_transient : Enrichment → Bool
is_transient (transient e) = true
is_transient _ = false

-- The outcome is that of the first call that does not fail transiently, and of the third call if
-- the first two both do.
pub enrich_with_retry_lem :
    (call : ℕ → Enrichment)
    → enrich_with_retry call ≡ (
        if is_transient (call 0)
        then (if is_transient (call 1) then call 2 else call 1)
        else call 0)
unfolding enrich_with_retry
enrich_with_retry_lem call = ground arith
