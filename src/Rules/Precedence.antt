-- ===== src/Rules/Precedence.antt =====
-- The one rule that pcrf_server_load_rule_info of src/pcrf_server.cpp keeps for Cisco SCE.
use pcrf.Common.{
  ◌≡◌, refl, sym, subst, true, false, List, [], ◌∷◌, arith, ◌⊎◌, inl, inr, Bool-cases,
}
use pcrf.Common.Text.{Text}
use pcrf.Common.Int.{ℤ, ◌≤ℤ◌, ltb_ℤ}
use pcrf.Types.{AbonRule, gx_cisco_sce}
use pcrf.Rules.{RuleMap, keep_lowest, load_rule_info, server_load_rule_info}

-- `r` is in the list.
abbrev IsOneOf : AbonRule → List AbonRule → Type 0
IsOneOf r [] = ⊥
IsOneOf r (x ∷ xs) = (r ≡ x) ⊎ IsOneOf r xs

-- No rule of the list has a lower precedence level.
abbrev IsLowest : AbonRule → List AbonRule → Type 0
IsLowest r [] = Unit {0}
IsLowest r (x ∷ xs) = (r.precedence_level.v ≤ℤ x.precedence_level.v) × IsLowest r xs

≤ℤ-trans : (a b c : ℤ) → a ≤ℤ b → b ≤ℤ c → a ≤ℤ c
≤ℤ-trans a b c h k = omega arith

keep_lowest-lower :
    (best r : AbonRule) (rs : List AbonRule)
    → ltb_ℤ r.precedence_level.v best.precedence_level.v ≡ true
    → keep_lowest best (r ∷ rs) ≡ keep_lowest r rs
unfolding keep_lowest
keep_lowest-lower best r rs h = rw h refl

keep_lowest-not_lower :
    (best r : AbonRule) (rs : List AbonRule)
    → ltb_ℤ r.precedence_level.v best.precedence_level.v ≡ false
    → keep_lowest best (r ∷ rs) ≡ keep_lowest best rs
unfolding keep_lowest
keep_lowest-not_lower best r rs h = rw h refl

keep_lowest-nil : (best : AbonRule) → keep_lowest best [] ≡ best
unfolding keep_lowest
keep_lowest-nil best = refl

level : AbonRule → ℤ
level r = r.precedence_level.v

keep_lowest_lem :
    (best : AbonRule) (rs : List AbonRule)
    → IsOneOf (keep_lowest best rs) (best ∷ rs) × IsLowest (keep_lowest best rs) (best ∷ rs)
unfolding level
keep_lowest_lem best [] = rw (keep_lowest-nil best) (inl refl, (omega arith, tt))
keep_lowest_lem best (r ∷ rs) =
    elim (Bool-cases (ltb_ℤ r.precedence_level.v best.precedence_level.v)) [
      | inl lower ↦
          subst (λ x. IsOneOf x (best ∷ r ∷ rs) × IsLowest x (best ∷ r ∷ rs))
            (sym (keep_lowest-lower best r rs lower))
            (let (one, (low, lowest)) = keep_lowest_lem r rs in
              (
                inr one,
                (
                  ≤ℤ-trans (level (keep_lowest r rs)) (level r) (level best) low (ground arith),
                  (low, lowest),
                ),
              ))
      | inr not_lower ↦
          subst (λ x. IsOneOf x (best ∷ r ∷ rs) × IsLowest x (best ∷ r ∷ rs))
            (sym (keep_lowest-not_lower best r rs not_lower))
            (let (one, (low, lowest)) = keep_lowest_lem best rs in
              (
                elim one [ inl e ↦ inl e | inr o ↦ inr (inr o) ],
                (
                  low,
                  (
                    ≤ℤ-trans (level (keep_lowest best rs)) (level best) (level r) low
                        (ground arith),
                    lowest,
                  ),
                ),
              ))
    ]

-- For Cisco SCE, where any rule of the profile is known, one rule is left: one of those that
-- load_rule_info has found, and none of them has a lower precedence level.
server_load_rule_info-IsLowest :
    (m : RuleMap) (name : Text) (names : List Text) (r : AbonRule) (rs : List AbonRule)
    → load_rule_info m (name ∷ names) [] ≡ r ∷ rs
    → (best : AbonRule) × (server_load_rule_info m (name ∷ names) gx_cisco_sce [] ≡ best ∷ [])
      × IsOneOf best (r ∷ rs)
      × IsLowest best (r ∷ rs)
unfolding server_load_rule_info
server_load_rule_info-IsLowest m name names r rs loaded = (
  keep_lowest r rs,
  rw (server_load_rule_info, loaded) refl,
  (keep_lowest_lem r rs).0,
  (keep_lowest_lem r rs).1,
)
