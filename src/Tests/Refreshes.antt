-- ===== src/Tests/Refreshes.antt =====
-- The theorems on the refresh of policies and on the Procera rules, at small inputs.
use pcrf.Common.{◌≡◌, refl, false, List, [], ◌∷◌}
use pcrf.Common.Text.{bytes, text_eq}
use pcrf.Common.Lists.{contains}
use pcrf.Common.Map.{find, insert, assign, erase}
use pcrf.Common.Int.{pos}
use pcrf.Types.{SessionInfo, new_session_info, new_request_info, null_text, to_otl, gx_ericssn}
use pcrf.Rules.{RuleRow, load_rule_list, insert_rows, insert_sce_rows}
use pcrf.Rules.Loaded.{known}
use pcrf.Rules.Selection.{subset}
use pcrf.RuleCache.Contents.{rules_of}
use pcrf.Refresh.{World, RefQueue, LocalQueue, choose_rules}
use pcrf.Refresh.Decision.{kind_of, sends, kind-choose_rules}

abbrev abort : RefQueue
abort = record {
  identifier = bytes "gx;1";
  identifier_type = bytes "session_id";
  action = to_otl (bytes "abort_session");
}

abbrev refresh : RefQueue
refresh = record {
  identifier = bytes "42";
  identifier_type = bytes "subscriber_id";
  action = null_text;
}

abbrev queue : LocalQueue
queue = (3, abort) ∷ (9, refresh) ∷ []

abbrev rows : List RuleRow
rows =
    record {
      rule_name = bytes "basic";
      dynamic_rule_flag = to_otl (pos 1);
      rule_group_flag = to_otl (pos 0);
      precedence_level = to_otl (pos 7);
      monit_key = to_otl (bytes "mk");
    }
    ∷ []

abbrev world : World
world = record {
  store = record {
    sessions = [];
    framed_ip = [];
    links = record { parent = []; child = [] };
    subscribers = [];
  };
  peers = [];
  rules = (bytes "gx;1", bytes "video" ∷ []) ∷ [];
  rule_map = load_rule_list rows [];
  names = λ info req. bytes "basic" ∷ [];
}

abbrev session : SessionInfo
session = record new_session_info { session_id = bytes "gx;1"; peer_dialect = gx_ericssn }

kind-choose_rules_example : kind_of (choose_rules session new_request_info false world).0 ≡ sends
unfolding known find text_eq load_rule_list insert_rows insert_sce_rows insert assign erase rules_of
    subset contains
kind-choose_rules_example = kind-choose_rules rows [] session new_request_info false world refl refl
