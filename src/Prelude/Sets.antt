-- ===== src/Prelude/Sets.antt =====
-- Python's `set`, as a list without a promise on its order, over elements with decidable equality.
use mathlib.Core.Path.{◌≡◌, refl}
use mathlib.Core.Logic.{ite}
use mathlib.Core.Bool.{Bool, true, false, ◌||◌, ◌&&◌, not}
use mathlib.Core.List.{List, [], ◌∷◌, ◌++◌}
use native.Mathlib.Omega.{arith}
use aegor_x.Prelude.Tests.{if◌then◌else◌}

module _ {K : Type 0} (dec : Discrete K) where
  -- k in s
  unfoldable pub mem : K → List K → Bool
  mem k [] = false
  mem k (x ∷ xs) = ite (dec x k) true (mem k xs)

  -- s.add(k)
  unfoldable pub add : K → List K → List K
  add k xs = if mem k xs then xs else xs ++ k ∷ []

  -- s.discard(k)
  unfoldable pub discard : K → List K → List K
  discard k [] = []
  discard k (x ∷ xs) = let rest = discard k xs in ite (dec x k) rest (x ∷ rest)

  -- s - t
  unfoldable pub difference : List K → List K → List K
  difference [] ys = []
  difference (x ∷ xs) ys = let rest = difference xs ys in if mem x ys then rest else x ∷ rest

  pub mem-append : (k : K) (xs ys : List K) → mem k (xs ++ ys) ≡ mem k xs || mem k ys
  unfolding mem
  mem-append k [] ys = refl
  mem-append k (x ∷ xs) ys = ground (arith, mem-append k xs ys)

  pub mem-add : (j k : K) (xs : List K) → mem j (add k xs) ≡ ite (dec k j) true (mem j xs)
  unfolding mem add
  mem-add j k xs = ground (arith, mem-append j xs (k ∷ []))

  pub mem-discard : (j k : K) (xs : List K) → mem j (discard k xs) ≡ ite (dec k j) false (mem j xs)
  unfolding mem discard
  mem-discard j k [] = ground arith
  mem-discard j k (x ∷ xs) = ground (arith, mem-discard j k xs)

  pub mem-difference :
      (k : K) (xs ys : List K) → mem k (difference xs ys) ≡ mem k xs && not (mem k ys)
  unfolding mem difference
  mem-difference k [] ys = refl
  mem-difference k (x ∷ xs) ys = ground (arith, mem-difference k xs ys)
