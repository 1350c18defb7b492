-- ===== src/Delivery/Client.antt =====
-- app/delivery/sender.py: the shared HTTP client, made on its first use.
use unith_task.Prelude.{ℕ, Bool, false, Option, none, some, if◌then◌else◌}
use unith_task.Prelude.Result.{Result, ok, raised, Exception}

-- A client that was made, with a number that tells it from others.
pub record Client : Type 0 where
  pub id : ℕ
  pub is_closed : Bool

abbrev new_client : ℕ → Client
new_client id = record { id = id; is_closed = false }

-- `_get_client`: the client, and `_CLIENT` behind the call.
unfoldable pub get_client : ℕ → Option Client → Client × Option Client
get_client id none = (new_client id, some (new_client id))
get_client id (some c) = if c.is_closed then (new_client id, some (new_client id)) else (c, some c)

-- `close_client`, with what `aclose` raises: then `_CLIENT` is left as it is.
unfoldable pub close_client : Option Exception → Option Client → Result (Unit {0}) × Option Client
close_client failure none = (ok tt, none)
close_client failure (some c) =
    if c.is_closed
    then (ok tt, none)
    else elim failure [ none ↦ (ok tt, none) | some e ↦ (raised e, some c) ]
