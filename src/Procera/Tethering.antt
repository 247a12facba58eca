-- ===== src/Procera/Tethering.antt =====
-- The reports of tethering of a Procera: pcrf_procera_oper_thetering_report of
-- src/procera/pcrf_procera.cpp.
pub mod Reports
use pcrf.Common.{ℕ, Bool, true, false, Option, none, some, List, [], ◌∷◌, ◌++◌, ◌==◌, if◌then◌else◌}
use pcrf.Common.Text.{Text, bytes}
use pcrf.Common.Map.{Map, find, insert, assign, erase}
use pcrf.Common.Int.{pos}
use pcrf.Types.{OtlValue, AbonRule, new_abon_rule, to_otl}

-- *g_pmapTethering, by session, and the two lists of rules. A map that is not created yet is an empty
-- one. The only value that is ever stored in it is 1.
pub record Tethering : Type 0 where
  pub sessions : Map ℕ
  pub rules : List AbonRule
  pub active : List AbonRule

-- soRule as it is first filled.
abbrev pub redirect_rule : AbonRule
redirect_rule = record new_abon_rule {
  rule_name = bytes "/PSM/Policies/Redirect_blocked_device";
  dynamic_rule_flag = to_otl (pos 0);
  rule_group_flag = to_otl (pos 0);
}

-- The assignment of m_bIsRelevant and the push_back; `is_active` is m_bIsActive before them.
unfoldable pub add_redirect : Bool → Tethering → Tethering
add_redirect is_active t = record t {
  rules = t.rules ++ record redirect_rule { is_active = is_active; is_relevant = true } ∷ [];
}

-- A session that is not in the map. The case 0 falls through to the default one.
unfoldable pub first_report : Text → ℕ → Tethering → Tethering
unfolding add_redirect
first_report sid flag t =
    let is_zero = flag == 0 in
    let pushed =
      if is_zero
      then record t { active = t.active ++ record redirect_rule { is_active = true } ∷ [] }
      else t in
    record (add_redirect is_zero pushed) { sessions = insert sid 1 t.sessions }

-- pcrf_procera_oper_thetering_report, for a session id and the flag of the request.
unfoldable pub oper_thetering_report : Text → OtlValue ℕ → Tethering → Tethering
unfolding first_report add_redirect
oper_thetering_report sid flag t = elim (find sid t.sessions) [
  | none ↦ if flag.is_null then t else first_report sid flag.v t
  | some value ↦
      if flag.is_null
      then (if value == 0
          then record t { sessions = erase sid t.sessions }
          else add_redirect false t)
      else if flag.v == 0
      then record t { sessions = erase sid t.sessions }
      else record (add_redirect false t) { sessions = assign sid 1 t.sessions }
]
