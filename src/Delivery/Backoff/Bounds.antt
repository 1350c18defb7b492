-- ===== src/Delivery/Backoff/Bounds.antt =====
-- The delay before a retry.
use unith_task.Prelude.{◌+◌, ◌-◌, min, ℕ, suc, ◌*◌, ◌^◌, ◌≤◌, arith}
use native.Mathlib.Nat.{pow-suc}
use unith_task.Config.{Settings}
use unith_task.Delivery.Backoff.{IsUniform, backoff_cap, backoff}

-- The delay is within both bounds, whatever is drawn from the range.
pub backoff_bounds :
    (s : Settings) (uniform : ℕ → ℕ → ℕ) (attempt : ℕ)
    → IsUniform uniform
    → (backoff s uniform attempt ≤ s.delivery_base_delay_ms * 2 ^ attempt)
      × (backoff s uniform attempt ≤ s.delivery_max_delay_ms)
unfolding backoff backoff_cap
backoff_bounds s uniform attempt u =
    let h = u.below 0 (backoff_cap s attempt) (omega arith) in (omega (arith, h), omega (arith, h))

-- A draw that comes as near to `d` as the range lets it.
near : ℕ → ℕ → ℕ → ℕ
near d a b = min (a + (d - a)) b

-- The range from which the delay is drawn never shrinks from one attempt to the next.
pub backoff_cap_mono :
    (s : Settings) (attempt : ℕ) → backoff_cap s attempt ≤ backoff_cap s (suc attempt)
unfolding backoff_cap
backoff_cap_mono s attempt = rw pow-suc (omega arith)
