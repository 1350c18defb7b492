-- ===== src/Examples/Delivering.antt =====
-- The delivery worker.
use mathlib.Core.Bool.{true≢false}
use unith_task.Prelude.{
  ℕ, Bytes, ap, sym, ◌∙◌, f_string, ◌+◌, ◌*◌, ◌≤◌, ◌≡◌, refl, ◌↔◌, inl, true, false, some, List, [],
  ◌∷◌, arith, length, take, encode, str, str_eq,
}
use unith_task.Prelude.Result.{ok}
use unith_task.Config.{settings}
use unith_task.Db.{
  DeliveryStatus, pending, in_flight, delivered, find_attempt, find_subscriber, find_key,
  same_status,
}
use unith_task.Db.Table.{take-IsScan, where_rows, update_rows, find_row}
use unith_task.Delivery.Signing.{canonical, compare_digest, sign, verify}
use unith_task.Runtime.{Runtime}
use unith_task.Delivery.Signing.Verify.{verify_iff, compare_digest_refl}
use unith_task.Delivery.Signing.Binding.{digest, verify-tampered}
use unith_task.Delivery.Sender.{DeliveryResult, build_request, deliver}
use unith_task.Receiver.{health, Entry, receive_webhook}
use unith_task.Receiver.Webhooks.{receive_webhook-build_request}
use unith_task.Delivery.Claim.{Claimed, claim_batch}
use unith_task.Delivery.Worker.{
  Job, reset, batch, deliver_attempt, deliver_all, process_batch, run_jobs,
}
use unith_task.Delivery.Worker.Batch.Runs.{process_batch_settles}
use unith_task.Delivery.Worker.Jobs.{run_jobs-IsTerminal}
use unith_task.Examples.Data.{codec, rt, key, attempt_at, tables, worker, env, payload, body}

-- A clean-up and a batch, against an endpoint that answers 500, with one attempt to send.
abbrev jobs : List Job
jobs = reset 900000 ∷ batch take 900000 (λ n. env 500) ∷ []

run_jobs-IsTerminal_example :
    find_attempt 1 (run_jobs settings rt jobs (worker pending)).database
    ≡ some (attempt_at 1 delivered)
unfolding find_attempt find_row
run_jobs-IsTerminal_example =
    run_jobs-IsTerminal settings rt jobs (worker pending) 1 (tt, (take-IsScan, tt))
      (refl, (refl, tt)) refl (inl refl)

abbrev failure : DeliveryResult
failure = record { success = false; status_code = some 500; error = some "busy" }

abbrev claimed : Claimed
claimed = record { attempt = attempt_at 2 pending; idempotency_key = some key }

process_batch_settles_example :
    (1 ≡ length (claim_batch take 50 (tables pending)).0)
    × (same_status DeliveryStatus.failed in_flight ≡ false)
unfolding process_batch claim_batch find_attempt where_rows find_row update_rows deliver_all
    deliver_attempt find_subscriber find_key str_eq deliver
process_batch_settles_example =
    process_batch_settles settings rt take 50 (λ n. env 500) (worker pending) 2 1 refl refl refl

receive_webhook-build_request_example :
    let r = build_request rt 2 "http://shop/hook" "s3cret" "order.placed" payload 100 in
    let (answer, entries) =
      receive_webhook codec
        (λ b. "{}")
        (some r.signature)
        (some r.timestamp)
        (some r.webhook_id)
        r.content
        200
        [] in
    (answer ≡ ok (some "id"))
    × ((health entries).1 ≤ 1000)
    × ((e : Entry) × (entries ≡ e ∷ [])
        × (e.webhook_id ≡ some "id")
        × (e.timestamp_ms ≡ some (str 100))
        × (e.signature ≡ some r.signature)
        × (verify rt "s3cret" (encode e.raw_body) r.signature 100 300 4000 ≡ true))
unfolding build_request encode
receive_webhook-build_request_example =
    receive_webhook-build_request rt 2 "http://shop/hook" "s3cret" "order.placed" payload 100 4000
      300 200 (λ b. "{}") [] _ (omega arith) (omega arith) (omega arith) refl refl

verify_iff_example : (verify rt "s3cret" body "sha256=ab" 100 300 4000 ≡ true) ↔ (
    (4000 ≤ 100 + 300 * 1000)
    × (100 ≤ 4000 + 300 * 1000)
    × (encode (sign rt "s3cret" body (some 100) 4000).0 ≡ encode "sha256=ab"))
verify_iff_example = verify_iff rt "s3cret" body "sha256=ab" 100 300 4000

-- The messages `100.{}` and `10.0{}` have the same bytes; this digest heeds their places.
weighted : ℕ → Bytes → ℕ
weighted sum [] = sum
weighted sum (b ∷ bs) = weighted (sum * 2 + b) bs

abbrev by_place : Runtime
by_place = record {
  codec = codec;
  hmac_sha256_hex = λ secret message. str (weighted 0 message);
  uuid_text = λ n. "id";
}

verify-tampered_example :
    verify by_place "s3cret" (48 ∷ body) (sign by_place "s3cret" body (some 100) 100).0 10 300 4000
    ≡ false
unfolding weighted encode str canonical f_string compare_digest
verify-tampered_example =
    let first = digest by_place "s3cret" 100 body in
    let differ : compare_digest first (digest by_place "s3cret" 10 (48 ∷ body)) ≡ false = refl in
    verify-tampered by_place "s3cret" 100 10 100 4000 300 body (48 ∷ body) (inl (omega arith))
      (λ _ e. true≢false (sym (compare_digest_refl first) ∙ ap (compare_digest first) e ∙ differ))
