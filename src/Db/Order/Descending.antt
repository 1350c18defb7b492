-- ===== src/Db/Order/Descending.antt =====
-- ORDER BY … DESC puts the rows in order and keeps them all.
use mathlib.Core.List.{Permᴰ}
use mathlib.Core.List.Permᴰ
use unith_task.Prelude.{
  drop, ◌++◌, ℕ, zero, suc, ◌≤◌, ◌≡◌, refl, ap, ◌∙◌, List, [], ◌∷◌, arith, leb, length, take, All,
  All-map, All-take, Bool-cases, inl, inr,
}
use unith_task.Db.Order.{insert_by_desc, order_by_desc}

module _ {ℓ} {A : Type ℓ} (key : A → ℕ) where
  abbrev pub Descending : List A → Type 0
  Descending [] = Unit
  Descending (x ∷ xs) = All (λ y. key y ≤ key x) xs × Descending xs

  All-insert_by_desc {κ} :
      (P : A → Type κ) (x : A) (xs : List A) → P x → All P xs → All P (insert_by_desc key x xs)
  unfolding insert_by_desc
  All-insert_by_desc P x [] px h = (px, tt)
  All-insert_by_desc P x (y ∷ ys) px h = elim (Bool-cases (leb (key y) (key x))) [
    | inl le ↦ rw (le, insert_by_desc) (px, h)
    | inr gt ↦ rw (gt, insert_by_desc) (h.0, All-insert_by_desc P x ys px h.1)
  ]

  insert_by_desc-Descending :
      (x : A) (xs : List A) → Descending xs → Descending (insert_by_desc key x xs)
  unfolding insert_by_desc
  insert_by_desc-Descending x [] h = (tt, tt)
  insert_by_desc-Descending x (y ∷ ys) h = elim (Bool-cases (leb (key y) (key x))) [
    | inl le ↦
        let below : key y ≤ key x = ground arith in
        rw (le, insert_by_desc)
          (
            (
              below,
              All-map (λ z. key z ≤ key y) (λ z. key z ≤ key x) ys (λ z b. omega (arith, b, below))
                  h.0,
            ),
            h,
          )
    | inr gt ↦
        rw (gt, insert_by_desc)
          (
            All-insert_by_desc (λ z. key z ≤ key y) x ys (ground arith) h.0,
            insert_by_desc-Descending x ys h.1,
          )
  ]

  pub order_by_desc-Descending : (xs : List A) → Descending (order_by_desc key xs)
  unfolding order_by_desc
  order_by_desc-Descending [] = tt
  order_by_desc-Descending (x ∷ xs) =
      insert_by_desc-Descending x (order_by_desc key xs) (order_by_desc-Descending xs)

  pub All-order_by_desc {κ} :
      (P : A → Type κ) (xs : List A) → All P xs → All P (order_by_desc key xs)
  unfolding order_by_desc
  All-order_by_desc P [] h = tt
  All-order_by_desc P (x ∷ xs) h =
      All-insert_by_desc P x (order_by_desc key xs) h.0 (All-order_by_desc P xs h.1)

  length-insert_by_desc : (x : A) (xs : List A) → length (insert_by_desc key x xs) ≡ suc (length xs)
  unfolding insert_by_desc
  length-insert_by_desc x [] = refl
  length-insert_by_desc x (y ∷ ys) = ground (arith, length-insert_by_desc x ys)

  pub length-order_by_desc : (xs : List A) → length (order_by_desc key xs) ≡ length xs
  unfolding order_by_desc
  length-order_by_desc [] = refl
  length-order_by_desc (x ∷ xs) =
      length-insert_by_desc x (order_by_desc key xs) ∙ ap suc (length-order_by_desc xs)

  pub take-Descending : (n : ℕ) (xs : List A) → Descending xs → Descending (take n xs)
  take-Descending zero xs h = tt
  take-Descending (suc n) [] h = tt
  take-Descending (suc n) (x ∷ xs) h =
      (All-take (λ y. key y ≤ key x) n xs h.0, take-Descending n xs h.1)

  All-drop {κ} : (P : A → Type κ) (n : ℕ) (xs : List A) → All P xs → All P (drop n xs)
  All-drop P zero xs h = h
  All-drop P (suc n) [] h = tt
  All-drop P (suc n) (x ∷ xs) h = All-drop P n xs h.1

  -- No row that a limit cuts off comes before one that it keeps.
  pub take-above-drop :
      (n : ℕ) (xs : List A)
      → Descending xs
      → All (λ x. All (λ y. key y ≤ key x) (drop n xs)) (take n xs)
  take-above-drop zero xs h = tt
  take-above-drop (suc n) [] h = tt
  take-above-drop (suc n) (x ∷ xs) h =
      (All-drop (λ y. key y ≤ key x) n xs h.0, take-above-drop n xs h.1)

  pub take-append-drop : (n : ℕ) (xs : List A) → take n xs ++ drop n xs ≡ xs
  take-append-drop zero xs = refl
  take-append-drop (suc n) [] = refl
  take-append-drop (suc n) (x ∷ xs) = ap (λ ys. x ∷ ys) (take-append-drop n xs)

  insert_by_desc-Perm : (x : A) (xs : List A) → Permᴰ (insert_by_desc key x xs) (x ∷ xs)
  unfolding insert_by_desc
  insert_by_desc-Perm x [] = Permᴰ.refl (x ∷ [])
  insert_by_desc-Perm x (y ∷ ys) = elim (Bool-cases (leb (key y) (key x))) [
    | inl le ↦ rw (le, insert_by_desc) (Permᴰ.refl (x ∷ y ∷ ys))
    | inr gt ↦
        rw (gt, insert_by_desc)
          (Permᴰ.trans (Permᴰ.cons refl (insert_by_desc-Perm x ys)) (Permᴰ.swap refl refl))
  ]

  pub order_by_desc-Perm : (xs : List A) → Permᴰ (order_by_desc key xs) xs
  unfolding order_by_desc
  order_by_desc-Perm [] = Permᴰ.nil
  order_by_desc-Perm (x ∷ xs) =
      Permᴰ.trans (insert_by_desc-Perm x (order_by_desc key xs))
        (Permᴰ.cons refl (order_by_desc-Perm xs))
