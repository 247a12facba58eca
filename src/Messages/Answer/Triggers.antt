-- ===== src/Messages/Answer/Triggers.antt =====
-- The event triggers of the answers of app_pcrf_ccr_cb of src/pcrf_server.cpp.
use pcrf.Common.{ℕ, ◌≡◌, Bool, false, ◌&&◌, ◌||◌, List, [], ◌∷◌, ◌==◌, arith}
use pcrf.Types.{AbonRule, gx_procera, initial_request, update_request}
use pcrf.Rules.Actions.{ActionSet, is_ipcan_dialect}
use pcrf.Messages.Rules.Bandwidth.{stands_in}
use pcrf.Messages.Answer.{is_changed, is_monitored, look_at_rules, triggers_of, event_triggers}

-- Whether a rule is to be installed or to be removed, and whether one is monitored.
unfoldable pub any_changed : List AbonRule → Bool
any_changed [] = false
any_changed (r ∷ rs) = is_changed r || any_changed rs

unfoldable pub any_monitored : List AbonRule → Bool
any_monitored [] = false
any_monitored (r ∷ rs) = is_monitored r || any_monitored rs

look_at_rules-any :
    (rs : List AbonRule) (c m : Bool)
    → look_at_rules rs (c, m) ≡ (c || any_changed rs, m || any_monitored rs)
unfolding look_at_rules any_changed any_monitored
look_at_rules-any [] c m = ground arith
look_at_rules-any (r ∷ rs) c m =
    ground (arith, look_at_rules-any rs (c || is_changed r) (m || is_monitored r))

-- The answer asks for usage reports (33) exactly where rules are operated on, a relevant one of them
-- has a monitoring key, the request is an initial one, or an update for which a rule is to be
-- installed or removed, and the peer is an UGW, a Procera or an Ericsson PGW.
pub event_triggers-usage_report :
    (request_type : ℕ) (a : ActionSet) (dialect : ℕ) (rs : List AbonRule)
    → stands_in 33 (event_triggers request_type a dialect rs) ≡ (
        a.operate_rule
        && any_monitored rs
        && (request_type == initial_request || request_type == update_request && any_changed rs)
        && (is_ipcan_dialect dialect || dialect == gx_procera))
unfolding event_triggers triggers_of is_ipcan_dialect
event_triggers-usage_report request_type a dialect rs =
    ground (arith, look_at_rules-any rs false false)
