-- ===== src/Api/Deliveries/Stats.antt =====
-- GET /pipeline/stats and GET /deliveries.
use unith_task.Prelude.{
  ℕ, zero, suc, if◌then◌else◌, true, false, ◌+◌, ◌≡◌, Bool, Option, none, some, List, [], ◌∷◌, ◌==◌,
}
use unith_task.Api.Deliveries.{
  missing, null_messages, messages_of, ManagementReply, reply, unreachable,
}

abbrev pub total : {S : Type 0} → List (S × ℕ) → ℕ
total [] = 0
total ((k, n) ∷ rest) = n + total rest

-- The depth that an answer gives: 0 for a queue without `messages`, none for a null, for a status
-- other than 200, and for an exception.
abbrev pub given_depth : ManagementReply → Option ℕ
given_depth (reply code missing) = if code == 200 then some 0 else none
given_depth (reply code null_messages) = none
given_depth (reply code (messages_of n)) = if code == 200 then some n else none
given_depth (unreachable e) = none

-- A reply that counts as an answer of the queue.
abbrev pub is_up : ManagementReply → Bool
is_up (reply code messages) = code == 200
is_up (unreachable e) = false

-- The count under a status, if the status is there.
abbrev pub entry : {S : Type 0} → (S → S → Bool) → S → List (S × ℕ) → Option ℕ
entry same st [] = none
entry same st ((k, n) ∷ rest) = if same k st then some n else entry same st rest

abbrev pub occurrences : {S : Type 0} → (S → S → Bool) → S → List S → ℕ
occurrences same st [] = 0
occurrences same st (x ∷ xs) =
    let rest = occurrences same st xs in if same x st then suc rest else rest

-- No entry for a status that no row has.
abbrev pub positive : ℕ → Option ℕ
positive zero = none
positive (suc n) = some (suc n)

abbrev raised_by : Bool → Option ℕ → Option ℕ
raised_by false o = o
raised_by true none = some 1
raised_by true (some n) = some (suc n)

-- A test that tells what is equal.
record IsSame {S : Type 0} (same : S → S → Bool) : Type 0 where
  sound : (a b : S) → same a b ≡ true → a ≡ b
  complete : (a : S) → same a a ≡ true
