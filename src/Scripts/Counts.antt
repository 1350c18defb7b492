-- ===== src/Scripts/Counts.antt =====
-- What `publish` sends, and what it says about it.
use mathlib.Core.Path.{subst, ◌∙◌}
use unith_task.Prelude.{
  ℕ, suc, zero, ◌+◌, ◌≤◌, ◌<◌, ◌≡◌, refl, inl, inr, String, Bytes, Bool, true, false, ◌&&◌, List,
  [], ◌∷◌, ◌++◌, str_eq, length, arith, All, All-map, All-append, length-append, Bool-cases,
  str_eq_iff,
}
use unith_task.Prelude.Distinct.{contains, distinct, contains-append, distinct-append}
use unith_task.Json.{Codec}
use unith_task.Consumer.Reconciler.{event_body}
use unith_task.Scripts.{
  Chances, Publisher, no_messages, send_event, fresh_id, pick_id, publish_one, publish_from,
  publish, printed_duplicates,
}

-- `random.choice` returns an element, and no uuid is drawn twice in the turns before `bound`.
pub record IsRandom (bound : ℕ) (d : Chances) : Type 0 where
  pub chosen : (i : ℕ) (x : String) (xs : List String) → contains (d.choice i x xs) (x ∷ xs) ≡ true
  pub apart : (i j : ℕ) → i < j → j < bound → str_eq (d.uuid4 i) (d.uuid4 j) ≡ false

module _ (codec : Codec) (d : Chances) (bound : ℕ) (random : IsRandom bound d) (duplicates : Bool)
    (event_type : String) where
  -- Before turn i: every message has an id of the list, the ids are different, and the lines count
  -- the turns that drew none.
  pub record IsTallied (i : ℕ) (p : Publisher) : Type 0 where
    pub turns : p.published ≡ i
    pub messages : length p.sent ≡ i
    pub listed : All (λ m. contains m.0 p.message_ids ≡ true) p.sent
    pub different : distinct p.message_ids ≡ length p.message_ids
    pub later_new : (j : ℕ) → i ≤ j → j < bound → contains (d.uuid4 j) p.message_ids ≡ false
    pub split : length p.message_ids + p.duplicate_lines ≡ i

  listed-append :
      (sent : List (String × Bytes)) (ids : List String) (m : String)
      → All (λ x. contains x.0 ids ≡ true) sent
      → All (λ x. contains x.0 (ids ++ m ∷ []) ≡ true) sent
  listed-append sent ids m h =
      All-map (λ (x : String × Bytes). contains x.0 ids ≡ true) _ sent
        (λ x hit. ground (arith, contains-append x.0 ids (m ∷ []))) h

  fresh-IsTallied :
      (i : ℕ) (p : Publisher)
      → i < bound
      → IsTallied i p
      → IsTallied
          (suc i)
          (send_event codec d duplicates event_type i (fresh_id codec d duplicates event_type i p))
  unfolding fresh_id
  fresh-IsTallied i p lt_i h =
      let ids = p.message_ids in
      let m = d.uuid4 i in
      let body = event_body codec m event_type (d.payload i) in
      record {
        turns = ground (arith, h.turns);
        messages = omega (arith, length-append p.sent ((m, body) ∷ []), h.messages);
        listed =
            All-append (λ (x : String × Bytes). contains x.0 (ids ++ m ∷ []) ≡ true) p.sent
              ((m, body) ∷ []) (listed-append p.sent ids m h.listed)
              (ground (arith, contains-append m ids (m ∷ []), str_eq_iff m m), tt);
        different =
            distinct-append ids m (h.later_new i (omega arith) lt_i)
            ∙ omega (arith, h.different, length-append ids (m ∷ []));
        later_new = λ j le lt. ground (
          arith,
          contains-append (d.uuid4 j) ids (m ∷ []),
          h.later_new j (omega (arith, le)) lt,
          random.apart i j (omega (arith, le)) lt,
        );
        split = omega (arith, length-append ids (m ∷ []), h.split);
      }

  reuse-IsTallied :
      (i : ℕ) (p : Publisher) (x : String) (xs : List String)
      → p.message_ids ≡ x ∷ xs
      → IsTallied i p
      → IsTallied (suc i) (
          send_event codec d duplicates event_type i
            (d.choice i x xs, record p { duplicate_lines = suc p.duplicate_lines }))
  reuse-IsTallied i p x xs e h =
      let m = d.choice i x xs in
      let body = event_body codec m event_type (d.payload i) in
      record {
        turns = ground (arith, h.turns);
        messages = omega (arith, length-append p.sent ((m, body) ∷ []), h.messages);
        listed =
            All-append (λ (y : String × Bytes). contains y.0 p.message_ids ≡ true) p.sent
              ((m, body) ∷ []) h.listed (rw e (random.chosen i x xs), tt);
        different = h.different;
        later_new = λ j le lt. h.later_new j (omega (arith, le)) lt;
        split = omega (arith, h.split);
      }

  pub pick-IsTallied :
      (i : ℕ) (p : Publisher) (ids : List String)
      → p.message_ids ≡ ids
      → i < bound
      → IsTallied i p
      → IsTallied (suc i) (
          send_event codec d duplicates event_type i
            (pick_id codec d duplicates event_type i p ids))
  unfolding pick_id
  pick-IsTallied i p [] e lt_i h = fresh-IsTallied i p lt_i h
  pick-IsTallied i p (x ∷ xs) e lt_i h = elim (Bool-cases (duplicates && d.reuses i)) [
    | inl again ↦ rw (again, pick_id) (reuse-IsTallied i p x xs e h)
    | inr fresh ↦ rw (fresh, pick_id) (fresh-IsTallied i p lt_i h)
  ]

  publish_from-IsTallied :
      (i count : ℕ) (p : Publisher)
      → i + count ≤ bound
      → IsTallied i p
      → IsTallied (i + count) (publish_from codec d duplicates event_type i count p)
  unfolding publish_from publish_one
  publish_from-IsTallied i zero p room h = subst (λ n. IsTallied n p) (omega arith) h
  publish_from-IsTallied i (suc count) p room h =
      subst (λ n. IsTallied n (publish_from codec d duplicates event_type i (suc count) p))
        (omega arith)
        (publish_from-IsTallied (suc i) count _ (omega (arith, room))
          (pick-IsTallied i p p.message_ids refl (omega (arith, room)) h))

  pub no_messages-IsTallied : IsTallied 0 no_messages
  no_messages-IsTallied = record {
    turns = refl;
    messages = refl;
    listed = tt;
    different = refl;
    later_new = λ j le lt. refl;
    split = refl;
  }

  -- Where the uuids of its turns differ and a choice is an element of its list: `publish` sends `count` messages,
  -- each with an id that it listed; the listed ids differ; and the number of duplicates that its
  -- last line prints is the number of its DUPLICATE lines.
  pub publish_counts :
      (count : ℕ)
      → count ≤ bound
      → let p = publish codec d duplicates event_type count in
        (length p.sent ≡ count)
        × (p.published ≡ count)
        × All (λ m. contains m.0 p.message_ids ≡ true) p.sent
        × (distinct p.message_ids ≡ length p.message_ids)
        × (printed_duplicates codec d duplicates event_type count ≡ p.duplicate_lines)
  unfolding publish
  publish_counts count le =
      let h =
        publish_from-IsTallied 0 count no_messages (omega (arith, le)) no_messages-IsTallied in
      (
        omega (arith, h.messages),
        omega (arith, h.turns),
        h.listed,
        h.different,
        omega (arith, h.different, h.split),
      )
