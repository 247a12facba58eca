-- ===== src/Common/Text.antt =====
-- std::string as the list of its bytes, and its comparisons.
use Prim.Native.Nat.{ℕ}
use Prim.Native.Char.{code}
use Prim.Native.String.{String}
use mathlib.Core.Path.{◌≡◌, refl, subst}
use mathlib.Core.Logic.{◌↔◌}
use mathlib.Core.Bool.{Bool, true, false, ◌&&◌}
use mathlib.Core.List.{List, [], ◌∷◌}
use native.Mathlib.Omega.{arith}
use pcrf.Common.Tests.{ltb, ◌==◌, if◌then◌else◌}

abbrev pub Text : Type 0
Text = List ℕ

-- The bytes of an ASCII literal. `String` has its own `[]` and `∷`.
abbrev pub bytes : String → Text
bytes String.[] = []
bytes (String.◌∷◌ c s) = code c ∷ bytes s

-- operator== and compare() == 0.
unfoldable pub text_eq : Text → Text → Bool
text_eq [] [] = true
text_eq [] (b ∷ y) = false
text_eq (a ∷ x) [] = false
text_eq (a ∷ x) (b ∷ y) = (a == b) && text_eq x y

-- operator<, byte by byte; std::less orders the elements of std::set by it.
unfoldable pub text_lt : Text → Text → Bool
text_lt x [] = false
text_lt [] (b ∷ y) = true
text_lt (a ∷ x) (b ∷ y) = if ltb a b then true else (a == b) && text_lt x y

pub text_eq_refl : (x : Text) → text_eq x x ≡ true
unfolding text_eq
text_eq_refl [] = refl
text_eq_refl (a ∷ x) = ground (arith, text_eq_refl x)

text_eq→eq : (x y : Text) → text_eq x y ≡ true → x ≡ y
unfolding text_eq
text_eq→eq [] [] h = refl
text_eq→eq [] (b ∷ y) h = ground arith
text_eq→eq (a ∷ x) [] h = ground arith
text_eq→eq (a ∷ x) (b ∷ y) h = ground (arith, text_eq→eq x y)

pub text_eq_iff : (x y : Text) → (text_eq x y ≡ true) ↔ (x ≡ y)
text_eq_iff x y = (text_eq→eq x y, λ e. subst (λ t. text_eq x t ≡ true) e (text_eq_refl x))

pub text_eq_comm : (x y : Text) → text_eq x y ≡ text_eq y x
text_eq_comm x y = ground (arith, text_eq_iff x y, text_eq_iff y x)
