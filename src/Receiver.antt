-- ===== src/Receiver.antt =====
-- receiver/main.py: the store of the test receiver, a deque of at most 1000 entries.
pub mod Window
pub mod Webhooks
use unith_task.Prelude.{
  ℕ, zero, suc, ◌+◌, ◌-◌, String, Bytes, Option, none, some, List, [], ◌∷◌, ◌++◌, length, drop,
}
use unith_task.Prelude.Result.{Result, ok, raised, exception}
use unith_task.Prelude.Int.{ℤ, pos, negsuc}
use unith_task.Json.{Value, Codec, object, empty}

pub record Entry : Type 0 where
  pub webhook_id : Option String
  pub timestamp_ms : Option String
  pub signature : Option String
  pub body : Value
  pub raw_body : String
  pub received_at : ℕ

abbrev pub maxlen : ℕ
maxlen = 1000

-- deque.append: the oldest entries go when the deque is full.
unfoldable pub append_entry : Entry → List Entry → List Entry
append_entry e entries = let all = entries ++ e ∷ [] in drop (length all - maxlen) all

abbrev body_or : Option Value → Value
body_or none = object empty
body_or (some v) = v

-- The log line behind the append reads `data.get`, which only a dict has.
abbrev answered : Option String → Value → Result (Option String)
answered id (object d) = ok id
answered id _ = raised (exception "AttributeError")

-- `receive_webhook`: the id in the answer, and the store; a body that is no JSON is stored as {}.
-- `decode` is body.decode("utf-8", errors="replace").
unfoldable pub receive_webhook :
    Codec
    → (decode : Bytes → String) → Option String
    → Option String
    → Option String
    → Bytes
    → ℕ
    → List Entry
    → Result (Option String) × List Entry
unfolding append_entry
receive_webhook codec decode signature timestamp id body now entries =
    let value = body_or (codec.loads body) in
    (
      answered id value,
      append_entry
          (record {
            webhook_id = id;
            timestamp_ms = timestamp;
            signature = signature;
            body = value;
            raw_body = decode body;
            received_at = now;
          })
          entries,
    )

-- list(_received)[-limit:]
unfoldable pub list_received : ℤ → List Entry → List Entry
list_received (pos zero) entries = entries
list_received (pos (suc n)) entries = drop (length entries - suc n) entries
list_received (negsuc n) entries = drop (suc n) entries

-- `clear_received`
unfoldable pub clear_received : List Entry → List Entry
clear_received entries = []

-- `health`: the status and the count that it answers.
abbrev pub health : List Entry → String × ℕ
health entries = ("ok", length entries)
