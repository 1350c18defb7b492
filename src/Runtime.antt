-- ===== src/Runtime.antt =====
-- What the program takes from Python's standard library and cannot be read in the repository:
-- the JSON codec, HMAC-SHA256 and the text of a UUID. Every model takes them as one parameter.
use unith_task.Prelude.{ℕ, String, Bytes}
use unith_task.Json.{Codec}

pub record Runtime : Type 0 where
  pub codec : Codec
  -- hmac.new(key, message, hashlib.sha256).hexdigest()
  pub hmac_sha256_hex : Bytes → Bytes → String
  -- str(uuid)
  pub uuid_text : ℕ → String
