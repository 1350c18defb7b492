-- ===== src/Consumer/Supervision.antt =====
-- `_supervised_reconciler` of app/consumer/rabbitmq.py.
use unith_task.Prelude.{ℕ, suc, ◌≡◌, refl, Bool, true, false, List, [], ◌∷◌, String}

-- How one call of `_reconciler` ends: it is cancelled, or it raises.
pub data Exit : Type 0 where
  cancelled : Exit
  crashed_with : String → Exit

-- Whether the loop has ended, and how often it has started the reconciler again.
pub record Supervised : Type 0 where
  pub over : Bool
  pub restarts : ℕ

abbrev again : Supervised → Supervised
again t = record { over = t.over; restarts = suc t.restarts }

-- The loop over the ends of the calls so far.
unfoldable pub supervise : List Exit → Supervised
supervise [] = record { over = false; restarts = 0 }
supervise (cancelled ∷ exits) = record { over = true; restarts = 0 }
supervise (crashed_with exc ∷ exits) = again (supervise exits)

abbrev is_cancelled : List Exit → Bool
is_cancelled [] = false
is_cancelled (cancelled ∷ exits) = true
is_cancelled (crashed_with exc ∷ exits) = is_cancelled exits

abbrev crashes : List Exit → ℕ
crashes [] = 0
crashes (cancelled ∷ exits) = 0
crashes (crashed_with exc ∷ exits) = suc (crashes exits)

-- Only a cancellation ends the loop; each crash before it is followed by a new start.
pub supervise_lem :
    (exits : List Exit)
    → supervise exits ≡ record { over = is_cancelled exits; restarts = crashes exits }
unfolding supervise
supervise_lem [] = refl
supervise_lem (cancelled ∷ exits) = refl
supervise_lem (crashed_with exc ∷ exits) = cc (supervise_lem exits)
