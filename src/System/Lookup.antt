-- ===== src/System/Lookup.antt =====
-- A query for one row, by its primary key and a condition that it meets.
use mathlib.Core.List.{Memᴰ}
use mathlib.Core.List.Memᴰ.{head, tail}
use unith_task.Prelude.{
  ℕ, ◌≡◌, refl, inl, inr, Bool, true, some, List, [], ◌∷◌, take, arith, All, All-map, All-take,
  length-take, ◌==◌, Bool-cases,
}
use unith_task.Prelude.Apart.{AwayFrom, Apart, Apart-take, All-within, take-Mem}
use unith_task.Db.{DeliveryAttempt, has_id}
use unith_task.Db.Keys.{row_id, Apart-where_rows, IsSelection}
use unith_task.Db.Table.{where_rows, find_row, All-where_rows_of}

find_row-where_rows :
    (p q : DeliveryAttempt → Bool) (rows : List DeliveryAttempt) {a : DeliveryAttempt}
    → find_row q rows ≡ some a
    → p a ≡ true
    → find_row q (where_rows p rows) ≡ some a
unfolding find_row where_rows
find_row-where_rows p q [] found hit = absurd cc
find_row-where_rows p q (x ∷ xs) {a} found hit = elim (Bool-cases (q x)) [
  | inr miss ↦ ground (arith, find_row-where_rows p q xs {a = a} (ground arith) hit)
  | inl here ↦ let x_a : x ≡ a = ground (arith, found, here) in ground (arith, x_a, hit, here)
]

none_left :
    (i : ℕ) (x : DeliveryAttempt) (xs : List DeliveryAttempt)
    → (x.id == i) ≡ true
    → AwayFrom row_id x xs
    → where_rows (has_id i) xs ≡ []
unfolding where_rows
none_left i x [] here away = refl
none_left i x (y ∷ ys) here away = ground (arith, none_left i x ys here away.1)

where_rows-single :
    (i : ℕ) (rows : List DeliveryAttempt) {a : DeliveryAttempt}
    → Apart row_id rows
    → find_row (has_id i) rows ≡ some a
    → where_rows (has_id i) rows ≡ a ∷ []
unfolding find_row where_rows
where_rows-single i [] keys found = absurd cc
where_rows-single i (x ∷ xs) {a} keys found = elim (Bool-cases (x.id == i)) [
  | inl here ↦ ground (arith, none_left i x xs here keys.0)
  | inr miss ↦ ground (arith, where_rows-single i xs {a = a} keys.1 (ground arith))
]

where_rows-Mem :
    (p : DeliveryAttempt → Bool) (rows : List DeliveryAttempt)
    → All (λ a. Memᴰ a rows) (where_rows p rows)
unfolding where_rows
where_rows-Mem p [] = tt
where_rows-Mem p (x ∷ xs) =
    let rest =
      All-map (λ a. Memᴰ a xs) (λ a. Memᴰ a (x ∷ xs)) (where_rows p xs) (λ a. tail)
        (where_rows-Mem p xs) in
    elim (Bool-cases (p x)) [
      | inl hit ↦ rw (hit, where_rows) (head refl, rest)
      | inr miss ↦ rw (miss, where_rows) rest
    ]

-- The database returns the one row, or the others are locked.
abbrev pub only_row : ℕ → ℕ → List DeliveryAttempt → List DeliveryAttempt
only_row i n rows = take n (where_rows (has_id i) rows)

pub only_row-IsSelection : (i : ℕ) → IsSelection (only_row i)
only_row-IsSelection i = record {
  choice = record {
    limited = λ n rows. omega (arith, length-take n (where_rows (has_id i) rows));
    selected = λ p n rows h.
        All-take (λ a. p a ≡ true) n (where_rows (has_id i) rows)
          (All-where_rows_of (λ a. p a ≡ true) (has_id i) rows h);
  };
  present = λ n rows.
      All-within (λ a. Memᴰ a rows) (where_rows (has_id i) rows) (only_row i n rows)
        (take-Mem n (where_rows (has_id i) rows)) (where_rows-Mem (has_id i) rows);
  once = λ n rows h.
      Apart-take row_id n (where_rows (has_id i) rows) (Apart-where_rows row_id (has_id i) rows h);
}

pub only_row-found :
    (i : ℕ) (p : DeliveryAttempt → Bool) (rows : List DeliveryAttempt) {a : DeliveryAttempt}
    → Apart row_id rows
    → find_row (has_id i) rows ≡ some a
    → p a ≡ true
    → only_row i 50 (where_rows p rows) ≡ a ∷ []
only_row-found i p rows {a} keys found hit =
    rw
      (where_rows-single i (where_rows p rows) {a = a} (Apart-where_rows row_id p rows keys)
        (find_row-where_rows p (has_id i) rows found hit))
      refl
