-- ===== src/Prelude/Text.antt =====
-- Go strings, as lists of bytes with a decidable equality; literals by `codes`.
use Prim.Native.Nat.{ℕ}
use Prim.Native.Char.{code}
use Prim.Native.String.{String}
use mathlib.Core.Path.{◌≡◌, refl}
use mathlib.Core.List.{List, [], ◌∷◌}
use native.Mathlib.Decide.{ℕ_discrete}
use native.Mathlib.Omega.{arith}
use mathlib.Core.Bool.{Bool, true, false, ◌&&◌, ◌||◌}
use p2papp.Prelude.Tests.{ltb, ◌==◌}

abbrev pub Str : Type 0
Str = List ℕ

-- The bytes of an ASCII literal.
abbrev pub codes : String → Str
codes String.[] = []
codes (String.◌∷◌ c s) = code c ∷ codes s

list_dec : (a b : List ℕ) → Dec (a ≡ b)
list_dec [] [] = yes refl
list_dec [] (y ∷ ys) = no (λ e. ground arith)
list_dec (x ∷ xs) [] = no (λ e. ground arith)
list_dec (x ∷ xs) (y ∷ ys) =
    let rest = list_dec xs ys in
    elim (ℕ_discrete x y) [
      | no p ↦ no (λ e. ground arith)
      | yes p ↦ elim rest [ yes q ↦ yes (ground arith) | no q ↦ no (λ e. ground arith) ]
    ]

unfoldable pub str_dec : Discrete Str
unfolding list_dec ℕ_discrete
str_dec = list_dec

-- `a < b` on Go strings: the order of their bytes.
unfoldable pub str_lt : Str → Str → Bool
str_lt a [] = false
str_lt [] (y ∷ ys) = true
str_lt (x ∷ xs) (y ∷ ys) = ltb x y || (x == y && str_lt xs ys)
