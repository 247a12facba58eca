-- ===== src/Procera/Location.antt =====
-- The name of the location rule that src/procera/pcrf_procera.cpp makes of a location.
use mathlib.Core.List.{append_assoc}
use pcrf.Common.{ℕ, zero, suc, ◌+◌, ◌-◌, ◌≤◌, ◌≡◌, refl, none, some, [], ◌∷◌, ◌++◌, arith}
use pcrf.Common.Text.{Text, bytes}
use pcrf.Common.Lists.{length, take, drop, length-append}
use pcrf.Types.{AbonRule, to_otl, einval}
use pcrf.Procera.{dash, find_last_dash, find_base_dash, location_rule, set_flags, make_uli_rule}

find_last_dash-append :
    (x y : Text) → find_last_dash y ≡ none → find_last_dash (x ++ dash ∷ y) ≡ some (length x)
unfolding find_last_dash
find_last_dash-append [] y h = rw h refl
find_last_dash-append (a ∷ x) y h = rw (find_last_dash-append x y h) refl

take-append : (x y : Text) → take (length x) (x ++ y) ≡ x
take-append [] y = refl
take-append (a ∷ x) y = rw (take-append x y) refl

drop-append : (x y : Text) → drop (length x) (x ++ y) ≡ y
drop-append [] y = refl
drop-append (a ∷ x) y = drop-append x y

drop-append_one : (x y : Text) (a : ℕ) → drop (length x + 1) (x ++ a ∷ y) ≡ y
drop-append_one [] y a = refl
drop-append_one (b ∷ x) y a =
    let e : length (b ∷ x) + 1 ≡ suc (length x + 1) = omega arith in rw e (drop-append_one x y a)

find_base_dash-positive :
    (x : Text) (n : ℕ) → 1 ≤ n → find_base_dash x n ≡ find_last_dash (take n x)
unfolding find_base_dash
find_base_dash-positive x zero h = ground arith
find_base_dash-positive x (suc n) h = refl

-- The text before the last two dashes, the one between them and the one after them.
module _ (pre base sector : Text) where
  abbrev pub before : Text
  before = pre ++ dash ∷ base

  abbrev pub location : Text
  location = before ++ dash ∷ sector

  length-before : length before ≡ length pre + suc (length base)
  length-before = length-append pre (dash ∷ base)

  base-location :
      find_last_dash base ≡ none → find_base_dash location (length before) ≡ some (length pre)
  base-location h =
      rw
        (
          find_base_dash-positive location (length before) (omega (arith, length-before)),
          take-append before (dash ∷ sector),
        )
        (find_last_dash-append pre base h)

  between : take (length before - length pre - 1) (drop (length pre + 1) location) ≡ base
  between =
      let n : length before - length pre - 1 ≡ length base = omega (arith, length-before) in
      rw
        (
          n,
          append_assoc pre (dash ∷ base) (dash ∷ sector),
          drop-append_one pre (base ++ dash ∷ sector) dash,
        )
        (take-append base (dash ∷ sector))

  -- The location rule of a text with at least two dashes, whose part between the last two is not
  -- empty, has that part and the part after the last dash in its name, and both flags set to 0.
  pub make_uli_rule-location :
      (r : AbonRule)
      → find_last_dash base ≡ none
      → find_last_dash sector ≡ none
      → 1 ≤ length base
      → make_uli_rule (to_otl location) r ≡ (
        0,
        set_flags
            (record r { rule_name = bytes "/User-Location/" ++ (base ++ (bytes "/" ++ sector)) }),
      )
  unfolding make_uli_rule location_rule
  make_uli_rule-location r b s long =
      rw (find_last_dash-append before sector s, base-location b)
        (ground (arith, length-before, between, drop-append_one before sector dash))

-- With nothing between the last two dashes the name is left incomplete, and the code is EINVAL.
pub make_uli_rule-no_base :
    (pre sector : Text) (r : AbonRule)
    → find_last_dash sector ≡ none
    → make_uli_rule (to_otl (location pre [] sector)) r
      ≡ (einval, record r { rule_name = bytes "/User-Location/" })
unfolding make_uli_rule location_rule
make_uli_rule-no_base pre sector r s =
    rw
      (
        find_last_dash-append (before pre [] sector) sector s,
        base-location pre [] sector (unfold find_last_dash in refl),
      )
      (ground (arith, length-before pre [] sector))
