-- ===== src/Prelude/Distinct.antt =====
-- Texts in a list: which are there, how many differ, and the order of their first arrivals.
use Prim.Native.Nat.{ℕ, suc}
use Prim.Native.String.{String}
use mathlib.Core.Path.{◌≡◌, refl, subst}
use mathlib.Core.Logic.{inl, inr}
use mathlib.Core.Bool.{Bool, true, false, ◌||◌}
use mathlib.Core.List.{List, [], ◌∷◌, ◌++◌}
use native.Mathlib.Omega.{arith}
use unith_task.Prelude.Tests.{if◌then◌else◌, str_eq, str_eq_iff, Bool-cases}
use unith_task.Prelude.Lists.{All}

abbrev pub contains : String → List String → Bool
contains m [] = false
contains m (x ∷ xs) = str_eq x m || contains m xs

-- len(set(…))
abbrev pub distinct : List String → ℕ
distinct [] = 0
distinct (x ∷ xs) = if contains x xs then distinct xs else suc (distinct xs)

abbrev pub arrive_at : List String → String → List String
arrive_at known m = if contains m known then known else known ++ m ∷ []

-- Behind the known ones each text that is new, once, where it first came.
abbrev pub first_arrivals : List String → List String → List String
first_arrivals known [] = known
first_arrivals known (m ∷ ms) = first_arrivals (arrive_at known m) ms

pub contains-append :
    (m : String) (xs ys : List String) → contains m (xs ++ ys) ≡ contains m xs || contains m ys
contains-append m [] ys = refl
contains-append m (x ∷ xs) ys = ground (arith, contains-append m xs ys)

pub distinct-append :
    (xs : List String) (y : String)
    → contains y xs ≡ false
    → distinct (xs ++ y ∷ []) ≡ suc (distinct xs)
distinct-append [] y h = refl
distinct-append (x ∷ xs) y h =
    ground
      (arith, distinct-append xs y, contains-append x xs (y ∷ []), str_eq_iff x y, str_eq_iff y x)

pub first_arrivals-append :
    (known ms : List String) (m : String)
    → first_arrivals known (ms ++ m ∷ []) ≡ arrive_at (first_arrivals known ms) m
first_arrivals-append known [] m = refl
first_arrivals-append known (x ∷ xs) m = first_arrivals-append (arrive_at known x) xs m

-- What holds of all texts holds of one that is there.
pub contains-All {κ} :
    (P : String → Type κ) (m : String) (xs : List String) → All P xs → contains m xs ≡ true → P m
contains-All P m [] h hit = absurd cc
contains-All P m (x ∷ xs) h hit = elim (Bool-cases (str_eq x m)) [
  | inl same ↦ subst P ((str_eq_iff x m).0 same) h.0
  | inr other ↦ contains-All P m xs h.1 (ground arith)
]
