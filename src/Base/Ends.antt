-- ===== src/Base/Ends.antt =====
-- The ends of a list, which is what a lexer leaves of its input.
use Prim.Native.Nat.{◌≤◌}
use mathlib.Core.List.{List, ◌∷◌}
use native.Mathlib.Omega.{arith}
use crex.Base.Lists.{length}

pub data Suffix {ℓ} {A : Type ℓ} (rest : List A) : List A → Type ℓ where
  here : Suffix rest rest
  there : {a : A} {as' : List A} → Suffix rest as' → Suffix rest (a ∷ as')

module _ {ℓ} {A : Type ℓ} where
  pub Suffix-trans : {xs ys zs : List A} → Suffix xs ys → Suffix ys zs → Suffix xs zs
  Suffix-trans h here = h
  Suffix-trans h (there k) = there (Suffix-trans h k)

  pub length-Suffix : {xs ys : List A} → Suffix xs ys → length xs ≤ length ys
  length-Suffix here = omega arith
  length-Suffix (there k) = omega (arith, length-Suffix k)
