-- ===== src/Common/Map.antt =====
-- std::map and std::unordered_map with text keys, as association lists. The order of the entries
-- is not observed by the operations that are modelled.
use mathlib.Core.Path.{◌≡◌}
use mathlib.Core.Option.{Option, none, some}
use mathlib.Core.List.{List, [], ◌∷◌}
use native.Mathlib.Omega.{arith}
use pcrf.Common.Tests.{if◌then◌else◌}
use pcrf.Common.Text.{Text, text_eq, text_eq_iff}

abbrev pub Map {ℓ} : Type ℓ → Type ℓ
Map V = List (Text × V)

module _ {ℓ} {V : Type ℓ} where
  -- find(); `none` is end().
  unfoldable pub find : Text → Map V → Option V
  find k [] = none
  find k ((j, v) ∷ m) = if text_eq j k then some v else find k m

  -- erase( iter ).
  unfoldable pub erase : Text → Map V → Map V
  erase k [] = []
  erase k ((j, v) ∷ m) = let rest = erase k m in if text_eq j k then rest else (j, v) ∷ rest

  -- An assignment through an iterator, iter->second = v, or the entry made by insert().
  unfoldable pub assign : Text → V → Map V → Map V
  unfolding erase
  assign k v m = (k, v) ∷ erase k m

  -- insert(), which keeps the value of a key that is there.
  unfoldable pub insert : Text → V → Map V → Map V
  unfolding find assign
  insert k v m = elim (find k m) [ none ↦ assign k v m | some _ ↦ m ]

  pub find-erase :
      (k j : Text) (m : Map V) → find j (erase k m) ≡ (if text_eq k j then none else find j m)
  unfolding find erase
  find-erase k j [] = ground arith
  find-erase k j ((i, v) ∷ m) =
      ground (arith, find-erase k j m, text_eq_iff i k, text_eq_iff i j, text_eq_iff k j)

  pub find-assign :
      (k j : Text) (v : V) (m : Map V)
      → find j (assign k v m) ≡ (if text_eq k j then some v else find j m)
  unfolding find assign
  find-assign k j v m = ground (arith, find-erase k j m)

  pub find-insert :
      (k j : Text) (v : V) (m : Map V)
      → find k m ≡ none
      → find j (insert k v m) ≡ (if text_eq k j then some v else find j m)
  unfolding insert
  find-insert k j v m h = ground (arith, find-assign k j v m)

  pub insert-present : (k : Text) (v w : V) (m : Map V) → find k m ≡ some w → insert k v m ≡ m
  unfolding insert
  insert-present k v w m h = ground arith
