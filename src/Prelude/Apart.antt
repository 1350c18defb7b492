-- ===== src/Prelude/Apart.antt =====
-- Lists whose elements have pairwise different numbers.
use Prim.Native.Nat.{ℕ, zero, suc}
use mathlib.Core.Path.{◌≡◌, refl, sym}
use mathlib.Core.Bool.{false}
use mathlib.Core.Path.{subst}
use mathlib.Core.List.{List, [], ◌∷◌, ◌++◌, map, Memᴰ}
use mathlib.Core.List.Memᴰ.{head, tail}
use native.Mathlib.Omega.{arith}
use unith_task.Prelude.Tests.{◌==◌}
use unith_task.Prelude.Lists.{take, All, All-map, All-append, All-take, All-map, All-map_of}

module _ {ℓ} {A : Type ℓ} (f : A → ℕ) where
  -- No element of the list has the number of `x`.
  abbrev pub AwayFrom : A → List A → Type 0
  AwayFrom x = All (λ y. (f x == f y) ≡ false)

  abbrev pub Apart : List A → Type 0
  Apart [] = Unit
  Apart (x ∷ xs) = AwayFrom x xs × Apart xs

  AwayFrom-flip : (x y : A) → (f x == f y) ≡ false → (f y == f x) ≡ false
  AwayFrom-flip x y h = ground arith

  pub Apart-take : (n : ℕ) (xs : List A) → Apart xs → Apart (take n xs)
  Apart-take zero xs h = tt
  Apart-take (suc n) [] h = tt
  Apart-take (suc n) (x ∷ xs) h =
      (All-take (λ y. (f x == f y) ≡ false) n xs h.0, Apart-take n xs h.1)

  pub Apart-append :
      (xs ys : List A) → Apart xs → Apart ys → All (λ x. AwayFrom x ys) xs → Apart (xs ++ ys)
  Apart-append [] ys hx hy h = hy
  Apart-append (x ∷ xs) ys hx hy h =
      (All-append (λ y. (f x == f y) ≡ false) xs ys hx.0 h.0, Apart-append xs ys hx.1 hy h.1)

-- What holds of all elements holds of one that is there.
module _ {ℓ} {A : Type ℓ} where
  pub All_at {κ} : (P : A → Type κ) (xs : List A) {a : A} → All P xs → Memᴰ a xs → P a
  All_at P [] h m = elim m [ ]
  All_at P (x ∷ xs) h (head e) = subst P (sym e) h.0
  All_at P (x ∷ xs) h (tail m) = All_at P xs h.1 m

  pub All-within {κ} :
      (P : A → Type κ) (xs ys : List A) → All (λ a. Memᴰ a xs) ys → All P xs → All P ys
  All-within P xs [] m h = tt
  All-within P xs (y ∷ ys) m h = (All_at P xs h m.0, All-within P xs ys m.1 h)

  pub take-Mem : (n : ℕ) (xs : List A) → All (λ a. Memᴰ a xs) (take n xs)
  take-Mem zero xs = tt
  take-Mem (suc n) [] = tt
  take-Mem (suc n) (x ∷ xs) =
      (head refl, All-map (λ a. Memᴰ a xs) _ (take n xs) (λ a. tail) (take-Mem n xs))

-- A list without one of its elements.
module _ {ℓ} {A : Type ℓ} where
  pub All-without {κ} :
      (P : A → Type κ) (xs : List A) (y : A) (ys : List A)
      → All P (xs ++ y ∷ ys)
      → P y × All P (xs ++ ys)
  All-without P [] y ys h = h
  All-without P (x ∷ xs) y ys h =
      let (this, rest) = All-without P xs y ys h.1 in (this, (h.0, rest))

  pub Apart-without :
      (f : A → ℕ) (xs : List A) (y : A) (ys : List A)
      → Apart f (xs ++ y ∷ ys)
      → Apart f (xs ++ ys) × AwayFrom f y (xs ++ ys)
  Apart-without f [] y ys h = (h.1, h.0)
  Apart-without f (x ∷ xs) y ys h =
      let (rest, away) = Apart-without f xs y ys h.1 in
      let (this, others) = All-without (λ z. (f x == f z) ≡ false) xs y ys h.0 in
      ((others, rest), (AwayFrom-flip f x y this, away))

pub Apart-map {ℓ κ} :
    {A : Type ℓ} {B : Type κ} (f : B → ℕ) (g : A → B) (xs : List A)
    → Apart (λ a. f (g a)) xs
    → Apart f (map g xs)
Apart-map f g [] h = tt
Apart-map f g (x ∷ xs) h =
    (All-map_of (λ y. (f (g x) == f y) ≡ false) g xs h.0, Apart-map f g xs h.1)
