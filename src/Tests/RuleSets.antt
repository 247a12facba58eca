-- ===== src/Tests/RuleSets.antt =====
-- The theorems on the cache of session rules and on the choice of rules, at small inputs.
use pcrf.Common.{◌≡◌, refl, true, List, [], ◌∷◌, map}
use pcrf.Common.Text.{Text, bytes, text_eq}
use pcrf.Common.Lists.{contains, erase_all}
use pcrf.Common.Map.{find}
use pcrf.Common.Int.{pos}
use pcrf.Types.{AbonRule, RequestInfo, new_session_info, new_request_info, to_otl, gx_ericssn}
use pcrf.RuleCache.{SessRules, active_rule}
use pcrf.RuleCache.Contents.{rules_of, remove_rule_op, run_op, effect_on, rules_of-run_op}
use pcrf.Rules.{RuleRow, rule_of_row, rule_of_sce_row, select_notrelevant_active, is_any_changes}
use pcrf.Rules.Selection.{subset, is_any_changes-select_notrelevant_active}
use pcrf.Rules.Actions.{determine_action_set}
use pcrf.Rules.Actions.Bits.{has_trigger, determine_action_set-bits}

abbrev sid : Text
sid = bytes "gx;1"

abbrev one_rule : SessRules
one_rule = (sid, bytes "basic" ∷ bytes "video" ∷ []) ∷ []

rules_of-run_op_example :
    rules_of sid (run_op (remove_rule_op sid (bytes "video")) one_rule) ≡ bytes "basic" ∷ []
unfolding rules_of effect_on find text_eq erase_all
rules_of-run_op_example = rules_of-run_op (remove_rule_op sid (bytes "video")) sid one_rule

abbrev rows : List RuleRow
rows =
    record {
      rule_name = bytes "basic";
      dynamic_rule_flag = to_otl (pos 1);
      rule_group_flag = to_otl (pos 0);
      precedence_level = to_otl (pos 7);
      monit_key = to_otl (bytes "mk");
    }
    ∷ []

abbrev names : List Text
names = bytes "basic" ∷ bytes "lost" ∷ bytes "sce" ∷ []

abbrev basic : AbonRule
basic = rule_of_row (record {
  rule_name = bytes "basic";
  dynamic_rule_flag = to_otl (pos 1);
  rule_group_flag = to_otl (pos 0);
  precedence_level = to_otl (pos 7);
  monit_key = to_otl (bytes "mk");
})

abbrev sce : AbonRule
sce =
    rule_of_sce_row
      (record { precedence_level = to_otl (pos 5); rule_name = bytes "sce"; monit_key = [] })

is_any_changes-select_notrelevant_active_example :
    is_any_changes
      (select_notrelevant_active
        (basic ∷ sce ∷ [])
        (map active_rule (bytes "sce" ∷ bytes "basic" ∷ []))).1
      (select_notrelevant_active
        (basic ∷ sce ∷ [])
        (map active_rule (bytes "sce" ∷ bytes "basic" ∷ []))).0
    ≡ 0
unfolding rule_of_row rule_of_sce_row subset contains text_eq
is_any_changes-select_notrelevant_active_example =
    is_any_changes-select_notrelevant_active (basic ∷ sce ∷ []) (bytes "sce" ∷ bytes "basic" ∷ [])
      (refl, refl, (refl, refl, tt))

abbrev location_request : RequestInfo
location_request = record new_request_info { event_trigger = 13 ∷ 2 ∷ [] }

determine_action_set-bits_example :
    (determine_action_set []
      (record new_session_info { peer_dialect = gx_ericssn })
      location_request).update_sessioncache
    ≡ true
unfolding has_trigger
determine_action_set-bits_example =
    (determine_action_set-bits [] (record new_session_info { peer_dialect = gx_ericssn })
      location_request).1
