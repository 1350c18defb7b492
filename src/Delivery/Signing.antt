-- ===== src/Delivery/Signing.antt =====
-- app/delivery/signing.py. Timestamps are milliseconds, as natural numbers.
pub mod Verify
pub mod Binding
use unith_task.Prelude.{
  ℕ, ◌+◌, ◌-◌, ◌*◌, String, Bytes, Bool, true, false, ◌&&◌, Option, none, some, [], ◌∷◌, ◌++◌, ◌==◌,
  ltb, if◌then◌else◌, encode, f_string, str,
}
use unith_task.Runtime.{Runtime}

-- hmac.compare_digest
unfoldable pub compare_digest : Bytes → Bytes → Bool
compare_digest [] [] = true
compare_digest (a ∷ as') (b ∷ bs) = a == b && compare_digest as' bs
compare_digest _ _ = false

-- f"{timestamp_ms}.".encode() + body
unfoldable pub canonical : ℕ → Bytes → Bytes
canonical timestamp_ms body = encode (f_string (str timestamp_ms ∷ "." ∷ [])) ++ body

abbrev timestamp_or : Option ℕ → ℕ → ℕ
timestamp_or none now_ms = now_ms
timestamp_or (some t) now_ms = t

module _ (rt : Runtime) where
  -- `now_ms` is int(time.time() * 1000) at the call.
  unfoldable pub sign : String → Bytes → Option ℕ → ℕ → String × ℕ
  sign secret body timestamp now_ms =
      let timestamp_ms = timestamp_or timestamp now_ms in
      let sig = rt.hmac_sha256_hex (encode secret) (canonical timestamp_ms body) in
      (f_string ("sha256=" ∷ sig ∷ []), timestamp_ms)

  unfoldable pub verify : String → Bytes → String → ℕ → ℕ → ℕ → Bool
  unfolding sign
  verify secret body signature_header timestamp_ms tolerance_seconds now_ms =
      let age_ms = (now_ms - timestamp_ms) + (timestamp_ms - now_ms) in
      if ltb (tolerance_seconds * 1000) age_ms
      then false
      else compare_digest (encode (sign secret body (some timestamp_ms) now_ms).0)
          (encode signature_header)
