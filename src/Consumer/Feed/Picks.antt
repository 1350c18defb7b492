-- ===== src/Consumer/Feed/Picks.antt =====
-- Elements of a list behind an append, and behind the removal of the one at a position.
use mathlib.Core.List.{Memᴰ}
use mathlib.Core.List.Memᴰ.{head, tail}
use unith_task.Prelude.{
  ℕ, zero, suc, ◌≡◌, ap, sym, Option, none, some, List, [], ◌∷◌, ◌++◌, ◌⊎◌, inl, inr,
}
use unith_task.Consumer.Service.{pick, put_back}

module _ {ℓ} {A : Type ℓ} (x : A) where
  pub Mem-append : (xs ys : List A) → Memᴰ x xs → Memᴰ x (xs ++ ys)
  Mem-append [] ys h = elim h [ ]
  Mem-append (y ∷ xs) ys (head e) = head e
  Mem-append (y ∷ xs) ys (tail h) = tail (Mem-append xs ys h)

  -- What was picked and what is left hold the element, if something was picked.
  abbrev pub IsLeft : Option (A × List A) → Type ℓ
  IsLeft none = Unit
  IsLeft (some (y, rest)) = (x ≡ y) ⊎ Memᴰ x rest

  put_back-IsLeft_self : (y : A) (o : Option (A × List A)) → x ≡ y → IsLeft (put_back y o)
  put_back-IsLeft_self y none e = tt
  put_back-IsLeft_self y (some (z, rest)) e = inr (head e)

  put_back-IsLeft : (y : A) (o : Option (A × List A)) → IsLeft o → IsLeft (put_back y o)
  put_back-IsLeft y none h = tt
  put_back-IsLeft y (some (z, rest)) (inl e) = inl e
  put_back-IsLeft y (some (z, rest)) (inr h) = inr (tail h)

  pub pick-IsLeft : (i : ℕ) (xs : List A) → Memᴰ x xs → IsLeft (pick i xs)
  unfolding pick
  pick-IsLeft zero [] h = elim h [ ]
  pick-IsLeft (suc i) [] h = elim h [ ]
  pick-IsLeft zero (y ∷ xs) (head e) = inl e
  pick-IsLeft zero (y ∷ xs) (tail h) = inr h
  pick-IsLeft (suc i) (y ∷ xs) (head e) = put_back-IsLeft_self y (pick i xs) e
  pick-IsLeft (suc i) (y ∷ xs) (tail h) = put_back-IsLeft y (pick i xs) (pick-IsLeft i xs h)

  -- An element stands at some position.
  pub pick-Mem :
      (xs : List A) → Memᴰ x xs → (i : ℕ) × (rest : List A) × (pick i xs ≡ some (x, rest))
  unfolding pick
  pick-Mem [] h = elim h [ ]
  pick-Mem (y ∷ xs) (head e) = (zero, xs, ap (λ z. some (z, xs)) (sym e))
  pick-Mem (y ∷ xs) (tail h) =
      let (i, rest, e) = pick-Mem xs h in (suc i, y ∷ rest, ap (put_back y) e)
