-- ===== src/Rules.antt =====
-- The choice of rules: src/cache/pcrf_rule_cache.cpp, the rule functions at the end of
-- src/pcrf_server.cpp, and pcrf_client_is_any_changes of src/pcrf_client.cpp.
pub mod Loaded
pub mod Selection
pub mod Precedence
pub mod Keys
pub mod Actions
use pcrf.Common.{
  ℕ, Bool, true, false, not, ◌&&◌, ◌||◌, Option, none, some, List, [], ◌∷◌, ◌++◌, ◌==◌,
  if◌then◌else◌,
}
use pcrf.Common.Text.{Text, text_eq}
use pcrf.Common.Int.{ℤ, ltb_ℤ}
use pcrf.Common.Map.{Map, find, insert}
use pcrf.Types.{OtlValue, OtlText, AbonRule, new_abon_rule, enodata, gx_cisco_sce}

-- g_pmapRule.
abbrev pub RuleMap : Type 0
RuleMap = Map AbonRule

-- A row of the query on ps.rule, and one of the query on ps.SCE_rule with the keys that
-- load_sce_rule_mk reads for it.
pub record RuleRow : Type 0 where
  pub rule_name : Text
  pub dynamic_rule_flag : OtlValue ℤ
  pub rule_group_flag : OtlValue ℤ
  pub precedence_level : OtlValue ℤ
  pub monit_key : OtlText

pub record SceRow : Type 0 where
  pub precedence_level : OtlValue ℤ
  pub rule_name : Text
  pub monit_key : List Text

unfoldable pub rule_of_row : RuleRow → AbonRule
rule_of_row row = record new_abon_rule {
  is_relevant = true;
  rule_name = row.rule_name;
  dynamic_rule_flag = row.dynamic_rule_flag;
  rule_group_flag = row.rule_group_flag;
  precedence_level = row.precedence_level;
  monit_key = if row.monit_key.is_null then [] else row.monit_key.v ∷ [];
}

unfoldable pub rule_of_sce_row : SceRow → AbonRule
rule_of_sce_row row = record new_abon_rule {
  is_relevant = true;
  rule_name = row.rule_name;
  precedence_level = row.precedence_level;
  monit_key = row.monit_key;
}

unfoldable pub insert_rows : List RuleRow → RuleMap → RuleMap
unfolding rule_of_row
insert_rows [] m = m
insert_rows (row ∷ rows) m = insert_rows rows (insert row.rule_name (rule_of_row row) m)

unfoldable pub insert_sce_rows : List SceRow → RuleMap → RuleMap
unfolding rule_of_sce_row
insert_sce_rows [] m = m
insert_sce_rows (row ∷ rows) m = insert_sce_rows rows (insert row.rule_name (rule_of_sce_row row) m)

-- pcrf_rule_cache_load_rule_list, where both queries succeed and the cache is not stopped.
unfoldable pub load_rule_list : List RuleRow → List SceRow → RuleMap
unfolding insert_rows insert_sce_rows
load_rule_list rows sce = insert_sce_rows sce (insert_rows rows [])

-- pcrf_rule_cache_get_rule_info: the code, and the rule where it is 0.
unfoldable pub get_rule_info : RuleMap → Text → ℕ × Option AbonRule
get_rule_info m name = elim (find name m) [ some r ↦ (0, some r) | none ↦ (enodata, none) ]

-- load_rule_info: unknown names are passed over.
unfoldable pub load_rule_info : RuleMap → List Text → List AbonRule → List AbonRule
unfolding get_rule_info
load_rule_info m [] out = out
load_rule_info m (name ∷ names) out = elim (get_rule_info m name).1 [
  | some r ↦ load_rule_info m names (out ++ r ∷ [])
  | none ↦ load_rule_info m names out
]

-- The loop over the rules after the first: a rule of a lower level replaces the one kept so far.
unfoldable pub keep_lowest : AbonRule → List AbonRule → AbonRule
keep_lowest best [] = best
keep_lowest best (r ∷ rs) =
    keep_lowest (if ltb_ℤ r.precedence_level.v best.precedence_level.v then r else best) rs

-- pcrf_server_load_rule_info.
unfoldable pub server_load_rule_info : RuleMap → List Text → ℕ → List AbonRule → List AbonRule
unfolding load_rule_info keep_lowest
server_load_rule_info m [] dialect out = out
server_load_rule_info m (name ∷ names) dialect out = elim (load_rule_info m (name ∷ names) out) [
  | [] ↦ []
  | r ∷ rs ↦ if dialect == gx_cisco_sce then keep_lowest r rs ∷ [] else r ∷ rs
]

-- pcrf_server_create_abon_rule_list, by what pcrf_db_load_abon_rule_list has read: the list that is
-- passed in is cleared.
unfoldable pub create_abon_rule_list : RuleMap → List Text → ℕ → List AbonRule → List AbonRule
unfolding server_load_rule_info
create_abon_rule_list m names dialect out = server_load_rule_info m names dialect []

-- The inner loop of pcrf_server_select_notrelevant_active, on one rule and the active rules.
unfoldable pub match_active : AbonRule → List AbonRule → AbonRule × List AbonRule
match_active r [] = (r, [])
match_active r (a ∷ acts) =
    let hit = text_eq a.rule_name r.rule_name in
    let rest = match_active (record r { is_active = r.is_active || hit }) acts in
    (rest.0, record a { is_relevant = a.is_relevant || hit } ∷ rest.1)

-- pcrf_server_select_notrelevant_active: the rules of the profile, and the active ones.
unfoldable pub select_notrelevant_active :
    List AbonRule → List AbonRule → List AbonRule × List AbonRule
unfolding match_active
select_notrelevant_active [] acts = ([], acts)
select_notrelevant_active (r ∷ rs) acts =
    let step = match_active r acts in
    let rest = select_notrelevant_active rs step.1 in (step.0 ∷ rest.0, rest.1)

-- The two loops of pcrf_client_is_any_changes.
unfoldable pub any_to_remove : List AbonRule → Bool
any_to_remove [] = false
any_to_remove (a ∷ acts) = (not a.is_relevant && a.is_active) || any_to_remove acts

unfoldable pub any_to_install : List AbonRule → Bool
any_to_install [] = false
any_to_install (r ∷ rs) = (not r.is_active && r.is_relevant) || any_to_install rs

-- pcrf_client_is_any_changes.
unfoldable pub is_any_changes : List AbonRule → List AbonRule → ℕ
unfolding any_to_remove any_to_install
is_any_changes active rules =
    if any_to_remove active then 1 else if any_to_install rules then 1 else 0

-- pcrf_make_mk_list; `new_info` is SDBMonitoringInfo().
unfoldable pub insert_keys {ℓ} : {V : Type ℓ} → V → List Text → Map V → Map V
insert_keys new_info [] m = m
insert_keys new_info (k ∷ ks) m = insert_keys new_info ks (insert k new_info m)

unfoldable pub make_mk_list {ℓ} : {V : Type ℓ} → V → List AbonRule → Map V → Map V
unfolding insert_keys
make_mk_list new_info [] m = m
make_mk_list new_info (r ∷ rs) m =
    let installed = insert_keys new_info r.monit_key m in
    make_mk_list new_info rs (if r.is_relevant && not r.is_active then installed else m)
