-- ===== src/Common/Lists.antt =====
-- Lists of texts as the standard containers use them: std::list, std::vector and std::set.
use Prim.Native.Nat.{ℕ, zero, suc, ◌+◌}
use mathlib.Core.Path.{◌≡◌, refl}
use mathlib.Core.Bool.{Bool, false, not, ◌&&◌, ◌||◌}
use mathlib.Core.List.{List, [], ◌∷◌, ◌++◌}
use native.Mathlib.Omega.{arith}
use pcrf.Common.Tests.{if◌then◌else◌}
use pcrf.Common.Text.{Text, text_eq, text_lt, text_eq_iff}

module _ {ℓ} {A : Type ℓ} where
  abbrev pub length : List A → ℕ
  length [] = 0
  length (x ∷ xs) = suc (length xs)

  abbrev pub take : ℕ → List A → List A
  take zero xs = []
  take (suc n) [] = []
  take (suc n) (x ∷ xs) = x ∷ take n xs

  abbrev pub drop : ℕ → List A → List A
  drop zero xs = xs
  drop (suc n) [] = []
  drop (suc n) (x ∷ xs) = drop n xs

  abbrev pub concat : List (List A) → List A
  concat [] = []
  concat (xs ∷ xss) = xs ++ concat xss

  pub length-append : (xs ys : List A) → length (xs ++ ys) ≡ length xs + length ys
  length-append [] ys = omega arith
  length-append (x ∷ xs) ys = omega (arith, length-append xs ys)

-- Whether a list holds a text.
unfoldable pub contains : Text → List Text → Bool
contains x [] = false
contains x (y ∷ ys) = text_eq x y || contains x ys

-- erase() of every element equal to `x`, in a loop over the list.
unfoldable pub erase_all : Text → List Text → List Text
erase_all x [] = []
erase_all x (y ∷ ys) = let rest = erase_all x ys in if text_eq x y then rest else y ∷ rest

-- std::set<std::string>::insert, the set kept in the order of its iteration.
unfoldable pub set_insert : Text → List Text → List Text
set_insert x [] = x ∷ []
set_insert x (y ∷ ys) =
    let rest = set_insert x ys in
    if text_eq x y then y ∷ ys else if text_lt x y then x ∷ y ∷ ys else y ∷ rest

-- How often a list holds a text.
unfoldable pub count : Text → List Text → ℕ
count x [] = 0
count x (y ∷ ys) = if text_eq x y then suc (count x ys) else count x ys

pub contains-append :
    (x : Text) (ys zs : List Text) → contains x (ys ++ zs) ≡ (contains x ys || contains x zs)
unfolding contains
contains-append x [] zs = refl
contains-append x (y ∷ ys) zs = ground (arith, contains-append x ys zs)

pub contains-one : (x y : Text) → contains x (y ∷ []) ≡ text_eq x y
unfolding contains
contains-one x y = ground arith

pub contains-erase_all :
    (x y : Text) (zs : List Text)
    → contains x (erase_all y zs) ≡ (contains x zs && not (text_eq y x))
unfolding contains erase_all
contains-erase_all x y [] = refl
contains-erase_all x y (z ∷ zs) =
    ground (arith, contains-erase_all x y zs, text_eq_iff x z, text_eq_iff y z, text_eq_iff y x)

pub contains-set_insert :
    (x y : Text) (zs : List Text) → contains x (set_insert y zs) ≡ (text_eq y x || contains x zs)
unfolding contains set_insert
contains-set_insert x y [] = ground (arith, text_eq_iff x y, text_eq_iff y x)
contains-set_insert x y (z ∷ zs) = ground (
  arith,
  contains-set_insert x y zs,
  text_eq_iff x z,
  text_eq_iff y z,
  text_eq_iff y x,
  text_eq_iff x y,
)

pub count-append : (x : Text) (ys zs : List Text) → count x (ys ++ zs) ≡ count x ys + count x zs
unfolding count
count-append x [] zs = omega arith
count-append x (y ∷ ys) zs = ground (arith, count-append x ys zs)

erase_all-absent : (x : Text) (zs : List Text) → contains x zs ≡ false → erase_all x zs ≡ zs
unfolding contains erase_all
erase_all-absent x [] h = refl
erase_all-absent x (z ∷ zs) h = ground (arith, erase_all-absent x zs)
