-- ===== src/Db/Table.antt =====
-- SELECT … WHERE, UPDATE … WHERE and a lookup, on a table as a list of rows.
use unith_task.Prelude.{
  ℕ, take, length-take, All-take, suc, ap, ◌≤◌, ◌≡◌, refl, Bool, true, Option, none, some, List, [],
  ◌∷◌, ◌++◌, arith, length, All, if◌then◌else◌, inl, inr, Bool-cases,
}
use mathlib.Core.Option
use mathlib.Core.Path.{subst}

module _ {ℓ} {A : Type ℓ} where
  unfoldable pub where_rows : (A → Bool) → List A → List A
  where_rows p [] = []
  where_rows p (x ∷ xs) = let rest = where_rows p xs in if p x then x ∷ rest else rest

  unfoldable pub update_rows : (A → Bool) → (A → A) → List A → List A
  update_rows p f [] = []
  update_rows p f (x ∷ xs) = (if p x then f x else x) ∷ update_rows p f xs

  unfoldable pub find_row : (A → Bool) → List A → Option A
  find_row p [] = none
  find_row p (x ∷ xs) = if p x then some x else find_row p xs

module _ {ℓ} {A : Type ℓ} where
  pub length-where_rows-le : (p : A → Bool) (xs : List A) → length (where_rows p xs) ≤ length xs
  unfolding where_rows
  length-where_rows-le p [] = omega arith
  length-where_rows-le p (x ∷ xs) = ground (arith, length-where_rows-le p xs)

  -- Every row of a selection meets its condition.
  pub All-where_rows : (p : A → Bool) (xs : List A) → All (λ x. p x ≡ true) (where_rows p xs)
  unfolding where_rows
  All-where_rows p [] = tt
  All-where_rows p (x ∷ xs) = ground (arith, All-where_rows p xs)

  -- What holds of all rows holds of the selected ones.
  pub All-where_rows_of {κ} :
      (P : A → Type κ) (p : A → Bool) (xs : List A) → All P xs → All P (where_rows p xs)
  unfolding where_rows
  All-where_rows_of P p [] h = tt
  All-where_rows_of P p (x ∷ xs) h = ground (arith, All-where_rows_of P p xs h.1)

  pub All-update_rows {κ} :
      (P : A → Type κ) (p : A → Bool) (f : A → A) (xs : List A)
      → ((x : A) → p x ≡ true → P x → P (f x))
      → All P xs
      → All P (update_rows p f xs)
  unfolding update_rows
  All-update_rows P p f [] k h = tt
  All-update_rows P p f (x ∷ xs) k h = ground (arith, k x, All-update_rows P p f xs k h.1)

  pub All-update_rows_to {κ} :
      (P Q : A → Type κ) (p : A → Bool) (f : A → A) (xs : List A)
      → ((x : A) → P x → Q (if p x then f x else x))
      → All P xs
      → All Q (update_rows p f xs)
  unfolding update_rows
  All-update_rows_to P Q p f [] k h = tt
  All-update_rows_to P Q p f (x ∷ xs) k h = (k x h.0, All-update_rows_to P Q p f xs k h.1)

  -- A lookup by a key that the update leaves alone finds the updated row.
  pub find_row-update_rows :
      (q p : A → Bool) (f : A → A) (xs : List A)
      → ((x : A) → q (f x) ≡ q x)
      → find_row q (update_rows p f xs) ≡ Option.map (λ x. if p x then f x else x) (find_row q xs)
  unfolding find_row update_rows
  find_row-update_rows q p f [] k = refl
  find_row-update_rows q p f (x ∷ xs) k = ground (arith, k x, find_row-update_rows q p f xs k)

  pub find_row-append :
      (q : A → Bool) (xs ys : List A)
      → find_row q (xs ++ ys) ≡ elim (find_row q xs) [ some x ↦ some x | none ↦ find_row q ys ]
  unfolding find_row
  find_row-append q [] ys = refl
  find_row-append q (x ∷ xs) ys = ground (arith, find_row-append q xs ys)

  -- What is found meets the condition, and what holds of all rows.
  pub find_row_sound : (q : A → Bool) (xs : List A) {x : A} → find_row q xs ≡ some x → q x ≡ true
  unfolding find_row
  find_row_sound q [] h = cc
  find_row_sound q (x ∷ xs) {x = y} h = ground (arith, find_row_sound q xs {x = y})

  pub find_row-All {κ} :
      (P : A → Type κ) (q : A → Bool) (xs : List A) {x : A}
      → All P xs
      → find_row q xs ≡ some x
      → P x
  unfolding find_row
  find_row-All P q [] h e = cc
  find_row-All P q (x ∷ xs) {x = y} h e = elim (Bool-cases (q x)) [
    | inl hit ↦ subst P (ground arith) h.0
    | inr miss ↦ find_row-All P q xs h.1 (ground arith)
  ]

  pub length-update_rows :
      (p : A → Bool) (f : A → A) (xs : List A) → length (update_rows p f xs) ≡ length xs
  unfolding update_rows
  length-update_rows p f [] = refl
  length-update_rows p f (x ∷ xs) = ap suc (length-update_rows p f xs)

-- The rows that `LIMIT n`, and `SKIP LOCKED` where a query has it, leave of those that meet its
-- WHERE clause: which ones, and in what order, is the database's choice.
pub record IsScan {ℓ} {A : Type ℓ} (scan : ℕ → List A → List A) : Type ℓ where
  pub limited : (n : ℕ) (rows : List A) → length (scan n rows) ≤ n
  pub selected :
      (p : A → Bool) (n : ℕ) (rows : List A)
      → All (λ a. p a ≡ true) rows
      → All (λ a. p a ≡ true) (scan n rows)

-- One such choice: the first rows of the table, with nothing locked.
pub take-IsScan {ℓ} : {A : Type ℓ} → IsScan (take {A = A})
take-IsScan = record {
  limited = λ n rows. omega (arith, length-take n rows);
  selected = λ p n rows h. All-take (λ a. p a ≡ true) n rows h;
}
