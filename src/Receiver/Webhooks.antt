-- ===== src/Receiver/Webhooks.antt =====
-- What the receiver stores of a request that the worker sends.
use unith_task.Prelude.{
  ℕ, suc, ◌+◌, ◌*◌, ◌-◌, ◌≤◌, ◌≡◌, refl, ap, ◌∙◌, String, Bytes, true, some, List, [], ◌∷◌, ◌++◌,
  length, drop, encode, str,
}
use unith_task.Prelude.Result.{ok}
use unith_task.Json.{Value, Fields, object}
use unith_task.Runtime.{Runtime}
use unith_task.Delivery.Signing.{verify}
use unith_task.Delivery.Sender.{Request, build_request}
use unith_task.Delivery.Sender.Results.{build_request_verifies}
use unith_task.Receiver.{Entry, maxlen, health, append_entry, receive_webhook}
use unith_task.Receiver.Window.{append_entry_lem}

receive_webhook_lem :
    (rt : Runtime) (r : Request) (decode : Bytes → String) (now : ℕ) (entries : List Entry)
    (d : Fields)
    → rt.codec.loads r.content ≡ some (object d)
    → receive_webhook rt.codec decode
        (some r.signature)
        (some r.timestamp)
        (some r.webhook_id)
        r.content
        now
        entries
      ≡ (
        ok (some r.webhook_id),
        append_entry
            (record {
              webhook_id = some r.webhook_id;
              timestamp_ms = some r.timestamp;
              signature = some r.signature;
              body = object d;
              raw_body = decode r.content;
              received_at = now;
            })
            entries,
      )
unfolding receive_webhook
receive_webhook_lem rt r decode now entries d loaded = rw (loaded, receive_webhook) refl

-- A request that `deliver` builds reaches the receiver, which reads its body as a JSON object. The
-- receiver answers with the id of the attempt and stores one entry, the last one; the count that its
-- health probe reports stays within the bound. The entry has the id, the timestamp and the signature
-- of the request, and a raw text whose bytes `verify` accepts under that signature, if decoding and
-- encoding gives the sent bytes back and the clock is within the tolerance of the sender's.
pub receive_webhook-build_request :
    (rt : Runtime) (id : ℕ) (endpoint secret event_type : String) (payload : Value)
    (sent_at now tolerance received_at : ℕ) (decode : Bytes → String) (entries : List Entry)
    (d : Fields)
    → now ≤ sent_at + tolerance * 1000
    → sent_at ≤ now + tolerance * 1000
    → length entries ≤ maxlen
    → rt.codec.loads (build_request rt id endpoint secret event_type payload sent_at).content
      ≡ some (object d)
    → encode (decode (build_request rt id endpoint secret event_type payload sent_at).content)
      ≡ (build_request rt id endpoint secret event_type payload sent_at).content
    → let r = build_request rt id endpoint secret event_type payload sent_at in
      let (answer, entries') =
        receive_webhook rt.codec decode
          (some r.signature)
          (some r.timestamp)
          (some r.webhook_id)
          r.content
          received_at
          entries in
      (answer ≡ ok (some (rt.uuid_text id)))
      × ((health entries').1 ≤ maxlen)
      × ((e : Entry) × (entries' ≡ drop (suc (length entries) - maxlen) entries ++ e ∷ [])
          × (e.webhook_id ≡ some (rt.uuid_text id))
          × (e.timestamp_ms ≡ some (str sent_at))
          × (e.signature ≡ some r.signature)
          × (verify rt secret (encode e.raw_body) r.signature sent_at tolerance now ≡ true))
receive_webhook-build_request rt id endpoint secret event_type payload sent_at now tolerance
      received_at decode entries d late early room loaded utf8 =
    let r = build_request rt id endpoint secret event_type payload sent_at in
    let (to, stamped, named, verified) =
      build_request_verifies rt id endpoint secret event_type payload sent_at now tolerance late
        early in
    let e : Entry = record {
      webhook_id = some r.webhook_id;
      timestamp_ms = some r.timestamp;
      signature = some r.signature;
      body = object d;
      raw_body = decode r.content;
      received_at = received_at;
    } in
    let (stored, bounded) = append_entry_lem e entries room in
    rw (receive_webhook_lem rt r decode received_at entries d loaded) (
      ap (λ i. ok (some i)) named,
      bounded,
      (
        e,
        stored,
        ap some named,
        ap some stamped,
        refl,
        ap (λ b. verify rt secret b r.signature sent_at tolerance now) utf8 ∙ verified,
      ),
    )
