-- ===== src/Delivery/Backoff.antt =====
-- `_backoff_seconds` of app/delivery/worker.py, in milliseconds.
pub mod Bounds
use unith_task.Prelude.{ℕ, ◌*◌, ◌^◌, ◌≤◌, min}
use unith_task.Config.{Settings}

-- random.uniform(a, b): the documentation gives a ≤ result ≤ b for a ≤ b.
pub record IsUniform (uniform : ℕ → ℕ → ℕ) : Type 0 where
  pub above : (a b : ℕ) → a ≤ b → a ≤ uniform a b
  pub below : (a b : ℕ) → a ≤ b → uniform a b ≤ b

unfoldable pub backoff_cap : Settings → ℕ → ℕ
backoff_cap s attempt = min (s.delivery_base_delay_ms * 2 ^ attempt) s.delivery_max_delay_ms

unfoldable pub backoff : Settings → (ℕ → ℕ → ℕ) → ℕ → ℕ
backoff s uniform attempt = uniform 0 (backoff_cap s attempt)
