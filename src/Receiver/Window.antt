-- ===== src/Receiver/Window.antt =====
-- The bound of the receiver's store, and what a listing shows.
use unith_task.Prelude.{
  ℕ, zero, suc, ◌-◌, ◌≤◌, ◌≡◌, refl, List, [], ◌∷◌, ◌++◌, arith, length, drop, length-append,
  length-drop,
}
use unith_task.Prelude.Int.{pos}
use unith_task.Receiver.{Entry, maxlen, append_entry, list_received}

module _ {ℓ} {A : Type ℓ} where
  drop-append_le : (n : ℕ) (xs ys : List A) → n ≤ length xs → drop n (xs ++ ys) ≡ drop n xs ++ ys
  drop-append_le zero xs ys le = refl
  drop-append_le (suc n) [] ys le = ground arith
  drop-append_le (suc n) (x ∷ xs) ys le = drop-append_le n xs ys (omega arith)

-- The store never grows past its bound. The new entry is the last one, behind the newest of the old
-- entries: all of them while there is room, and all but the oldest when it is full.
pub append_entry_lem :
    (e : Entry) (entries : List Entry)
    → length entries ≤ maxlen
    → (append_entry e entries ≡ drop (suc (length entries) - maxlen) entries ++ e ∷ [])
      × (length (append_entry e entries) ≤ maxlen)
unfolding append_entry
append_entry_lem e entries le = (
  ground (
    arith,
    drop-append_le (suc (length entries) - maxlen) entries (e ∷ []) (omega arith),
    length-append entries (e ∷ []),
  ),
  omega (arith, length-drop (length (entries ++ e ∷ []) - maxlen) (entries ++ e ∷ [])),
)

-- A listing with a positive limit has at most that many entries, and is the end of the store; with
-- the limit 0 it is the whole store.
pub list_received_lem :
    (n : ℕ) (entries : List Entry)
    → (length (list_received (pos (suc n)) entries) ≤ suc n)
      × (list_received (pos zero) entries ≡ entries)
unfolding list_received
list_received_lem n entries = (omega (arith, length-drop (length entries - suc n) entries), refl)
