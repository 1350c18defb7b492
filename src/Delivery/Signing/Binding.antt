-- ===== src/Delivery/Signing/Binding.antt =====
-- app/delivery/signing.py: the timestamp and the body to which a signature is bound.
use mathlib.Core.List.{append_cancel_left}
use unith_task.Prelude.{
  ℕ, ◌≡◌, ◌≢◌, ◌⊎◌, inl, inr, sym, ◌∙◌, String, Bytes, Bool-cases, false, some, encode,
}
use unith_task.Prelude.Text.Decimal.{str-point_inj, encode-f_string}
use unith_task.Runtime.{Runtime}
use unith_task.Delivery.Signing.{canonical, sign, verify}
use unith_task.Delivery.Signing.Verify.{verify_iff}

-- A canonical message is that of one timestamp and one body.
pub canonical_inj :
    (t t' : ℕ) (body body' : Bytes)
    → canonical t body ≡ canonical t' body'
    → (t ≡ t') × (body ≡ body')
unfolding canonical
canonical_inj t t' body body' = str-point_inj t t' body body'

canonical_differs :
    (t t' : ℕ) (body body' : Bytes)
    → (t ≢ t') ⊎ (body ≢ body')
    → canonical t body ≢ canonical t' body'
canonical_differs t t' body body' (inl d) = λ e. d (canonical_inj t t' body body' e).0
canonical_differs t t' body body' (inr d) = λ e. d (canonical_inj t t' body body' e).1

module _ (rt : Runtime) (secret : String) where
  -- The bytes of the digest in `sign`.
  abbrev pub digest : ℕ → Bytes → Bytes
  digest t body = encode (rt.hmac_sha256_hex (encode secret) (canonical t body))

  digest-sign :
      (t t' now now' : ℕ) (body body' : Bytes)
      → encode (sign rt secret body (some t) now).0 ≡ encode (sign rt secret body' (some t') now').0
      → digest t body ≡ digest t' body'
  unfolding sign
  digest-sign t t' now now' body body' e =
      append_cancel_left (encode "sha256=") _ _
        (sym (encode-f_string _ _) ∙ e ∙ encode-f_string _ _)

  -- A tampered request, that is one with another timestamp or another body under the header of a
  -- signature of the same secret, is refused, unless HMAC gives the two different canonical messages
  -- the same digest.
  pub verify-tampered :
      (t t' signed_at now tolerance : ℕ) (body body' : Bytes)
      → (t ≢ t') ⊎ (body ≢ body')
      → (canonical t body ≢ canonical t' body' → digest t body ≢ digest t' body')
      → verify rt secret body' (sign rt secret body (some t) signed_at).0 t' tolerance now ≡ false
  verify-tampered t t' signed_at now tolerance body body' changed apart =
      elim (Bool-cases
        (verify rt secret body' (sign rt secret body (some t) signed_at).0 t' tolerance now)) [
          | inl accepted ↦ absurd (
              apart (canonical_differs t t' body body' changed) (
                digest-sign t t' signed_at now body body'
                  (sym ((verify_iff rt secret body' _ t' tolerance now).0 accepted).2)))
          | inr e ↦ e
        ]
