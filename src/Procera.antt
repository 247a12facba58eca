-- ===== src/Procera.antt =====
-- The rules that src/procera/pcrf_procera.cpp makes of the device, the APN and the location.
pub mod Location
pub mod Tethering
use pcrf.Common.{
  ℕ, zero, suc, ◌+◌, ◌-◌, Bool, true, false, not, Option, none, some, List, [], ◌∷◌, ◌++◌,
  if◌then◌else◌, ◌==◌, ltb,
}
use pcrf.Common.Text.{Text, bytes}
use pcrf.Common.Lists.{take, drop}
use pcrf.Common.Int.{pos}
use pcrf.Types.{OtlText, AbonRule, new_abon_rule, to_otl, einval}

abbrev pub dash : ℕ
dash = 45

-- find_last_of( '-' ); `none` is npos.
unfoldable pub find_last_dash : Text → Option ℕ
find_last_dash [] = none
find_last_dash (a ∷ x) = elim (find_last_dash x) [
  | some n ↦ some (suc n)
  | none ↦ if a == dash then some 0 else none
]

-- find_last_of( '-', sector - 1 ): the search begins at that place; for the place 0 the argument
-- wraps to npos, and the search begins at the end.
unfoldable pub find_base_dash : Text → ℕ → Option ℕ
unfolding find_last_dash
find_base_dash x zero = find_last_dash x
find_base_dash x (suc n) = find_last_dash (take (suc n) x)

-- The two assignments at the end of pcrf_procera_make_uli_rule.
unfoldable pub set_flags : AbonRule → AbonRule
set_flags r = record r { dynamic_rule_flag = to_otl (pos 0); rule_group_flag = to_otl (pos 0) }

-- The name that is made where both dashes are found, and whether it is complete.
unfoldable pub location_rule : Text → ℕ → ℕ → AbonRule → ℕ × AbonRule
unfolding set_flags
location_rule x sector base r =
    if ltb (base + 1) sector
    then (
      0,
      set_flags (record r {
        rule_name =
            bytes "/User-Location/"
            ++ (take (sector - base - 1) (drop (base + 1) x) ++ (bytes "/" ++ drop (sector + 1) x));
      }),
    )
    else (einval, record r { rule_name = bytes "/User-Location/" })

-- pcrf_procera_make_uli_rule: the code, and the rule as it is left.
unfoldable pub make_uli_rule : OtlText → AbonRule → ℕ × AbonRule
unfolding find_last_dash find_base_dash location_rule set_flags
make_uli_rule uli r =
    if uli.is_null
    then (0, set_flags (record r { rule_name = bytes "/User-Location/inRoaming" }))
    else elim (find_last_dash uli.v) [
      | none ↦ (einval, r)
      | some sector ↦ elim (find_base_dash uli.v sector) [
        | none ↦ (einval, r)
        | some base ↦ location_rule uli.v sector base r
      ]
    ]

-- One of the two rules before the location: the rule and the list.
unfoldable add_named : Text → OtlText → AbonRule × List AbonRule → AbonRule × List AbonRule
add_named prefix f (r, out) =
    let named = record r { rule_name = prefix ++ f.v } in
    if f.is_null then (r, out) else (named, out ++ named ∷ [])

-- pcrf_procera_additional_rules: the list, with the rules appended. The code of make_uli_rule is
-- not looked at.
unfoldable pub additional_rules :
    OtlText → OtlText → OtlText → OtlText → List AbonRule → List AbonRule
unfolding add_named make_uli_rule
additional_rules imei called ecgi cgi out =
    let start = record new_abon_rule {
      is_relevant = true;
      dynamic_rule_flag = to_otl (pos 0);
      rule_group_flag = to_otl (pos 0);
    } in
    let (r, l) =
      add_named (bytes "/APN/") called (add_named (bytes "/IMEISV/") imei (start, out)) in
    l ++ (make_uli_rule (if not ecgi.is_null then ecgi else cgi) r).1 ∷ []
