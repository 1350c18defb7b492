-- ===== src/Delivery/Signing/Verify.antt =====
-- `verify` against `sign`.
use unith_task.Prelude.{
  ℕ, ◌+◌, ◌*◌, ◌≤◌, ◌≡◌, refl, ◌↔◌, String, Bytes, true, some, none, [], ◌∷◌, arith, encode, ap,
}
use unith_task.Runtime.{Runtime}
use unith_task.Delivery.Signing.{compare_digest, sign, verify}

compare_digest_sound : (a b : Bytes) → compare_digest a b ≡ true → a ≡ b
unfolding compare_digest
compare_digest_sound [] [] h = refl
compare_digest_sound [] (y ∷ b) h = cc
compare_digest_sound (x ∷ a) [] h = cc
compare_digest_sound (x ∷ a) (y ∷ b) h = ground (arith, compare_digest_sound a b)

pub compare_digest_refl : (a : Bytes) → compare_digest a a ≡ true
unfolding compare_digest
compare_digest_refl [] = refl
compare_digest_refl (x ∷ a) = ground (arith, compare_digest_refl a)

-- A header is accepted exactly when the clock is within the tolerance of the timestamp, on either
-- side, and its bytes are those of the signature of this body under this timestamp.
pub verify_iff :
    (rt : Runtime) (secret : String) (body : Bytes) (header : String) (t tolerance now : ℕ)
    → (verify rt secret body header t tolerance now ≡ true) ↔ (
        (now ≤ t + tolerance * 1000)
        × (t ≤ now + tolerance * 1000)
        × (encode (sign rt secret body (some t) now).0 ≡ encode header))
unfolding verify
verify_iff rt secret body header t tolerance now =
    let given = encode header in
    let expected = encode (sign rt secret body (some t) now).0 in
    (
      λ h. (ground arith, ground arith, compare_digest_sound expected given (ground arith)),
      λ (now_le, t_le, e).
          ground (arith, ap (λ (b : Bytes). compare_digest b given) e, compare_digest_refl given),
    )

-- What `sign` returns verifies under the same secret and body, as long as the clocks of the two
-- calls differ by at most the tolerance.
pub verify-sign :
    (rt : Runtime) (secret : String) (body : Bytes) (signed_at now tolerance : ℕ)
    → now ≤ signed_at + tolerance * 1000
    → signed_at ≤ now + tolerance * 1000
    → let (header, timestamp_ms) = sign rt secret body none signed_at in
      verify rt secret body header timestamp_ms tolerance now ≡ true
unfolding sign
verify-sign rt secret body signed_at now tolerance late early =
    (verify_iff rt secret body _ signed_at tolerance now).1 (late, early, refl)
