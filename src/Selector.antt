-- ===== src/Selector.antt =====
-- The rules that are used where the data of a subscriber cannot be had in time:
-- src/data_proc/pcrf_defaultRuleSelector.cpp.
pub mod Chosen
use pcrf.Common.{
  ℕ, Bool, true, false, ◌&&◌, ◌||◌, Option, none, some, List, [], ◌∷◌, ◌++◌, ◌==◌, if◌then◌else◌,
}
use pcrf.Common.Text.{Text, bytes, text_eq}
use pcrf.Common.Lists.{contains}
use pcrf.Common.Map.{Map, find, assign}
use pcrf.Types.{UserEnvironment, OtlText, to_otl}

-- SDefaultRuleSelectorData, with m_mmapCondition. The pairs of an unordered_multimap that have one
-- key stand together, whatever else stands before or after them.
abbrev pub Conditions : Type 0
Conditions = List (Text × Text)

-- The pairs of one key, from what find() gives to the next other key.
unfoldable pub group : Text → Conditions → List Text
group param [] = []
group param ((p, v) ∷ c) = let rest = group param c in if text_eq p param then v ∷ rest else rest

-- pcrf_drs_add_selector.
unfoldable add_selector : Conditions → Text → Text → Conditions
add_selector c param value = c ++ ((param, value) ∷ [])

-- pcrf_drs_add_defaultRule, with g_mapDefaultRule.
unfoldable pub add_default_rule : Conditions → Text → Map Conditions → Map Conditions
unfolding find assign
add_default_rule c name rules = elim (find name rules) [
  | none ↦ assign name c rules
  | some old ↦ assign name (old ++ c) rules
]

-- pcrf_drs_check_parameter.
unfoldable pub check_parameter : Conditions → Text → Text → Bool
unfolding group contains
check_parameter c param value = elim (group param c) [
  | [] ↦ true
  | v ∷ vs ↦ contains value (v ∷ vs)
]

-- PEER_DIALECT_NAME.
unfoldable pub dialect_name : ℕ → Text
dialect_name a =
    if a == 0
    then bytes "GX_UNDEF"
    else if a == 1
    then bytes "GX_HW_UGW"
    else if a == 2
    then bytes "GX_CISCO_SCE"
    else if a == 3
    then bytes "GX_PROCERA"
    else if a == 4
    then bytes "GX_ERICSSN"
    else if a == 10
    then bytes "RX_IMS"
    else bytes "UNSUPPORTED_DIALECT"

-- The body of the loop of pcrf_drs_get_defaultRuleList up to push_back: false is `continue`.
unfoldable pub is_selected : UserEnvironment → ℕ → Conditions → Bool
unfolding check_parameter dialect_name
is_selected env dialect c =
    if (if env.rat_type.is_null then true else check_parameter c (bytes "RAT_TYPE") env.rat_type.v)
    then (if (if env.sgsn_address.is_null
          then true
          else check_parameter c (bytes "SGSN_ADDRESS") env.sgsn_address.v)
        then (if (if env.ip_can_type.is_null
              then true
              else check_parameter c (bytes "IP_CAN_TYPE") env.ip_can_type.v)
            then (if env.ip_can_type.is_null
                then true
                else check_parameter c (bytes "PEER_DIALECT") (dialect_name dialect))
            else false)
        else false)
    else false

-- pcrf_drs_get_defaultRuleList: the list of names, with those of the rules appended.
unfoldable pub get_default_rule_list : UserEnvironment → ℕ → Map Conditions → List Text → List Text
unfolding is_selected
get_default_rule_list env dialect [] names = names
get_default_rule_list env dialect ((name, c) ∷ rules) names =
    get_default_rule_list env dialect rules
      (if is_selected env dialect c then names ++ (name ∷ []) else names)

-- The calls of pcrf_drs_add_defaultRule when the configuration is read.
unfoldable pub add_all : List (Conditions × Text) → Map Conditions → Map Conditions
unfolding add_default_rule
add_all [] rules = rules
add_all ((c, name) ∷ calls) rules = add_all calls (add_default_rule c name rules)
