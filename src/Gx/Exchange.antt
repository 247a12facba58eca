-- ===== src/Gx/Exchange.antt =====
-- app_pcrf_ccr_cb of src/pcrf_server.cpp from message to message: what it reads from the request,
-- and the AVPs of its answer.
pub mod Identified
pub mod Parts
pub mod Reports
use pcrf.Common.{ℕ, Bool, false, Option, none, some, List, [], ◌∷◌, ◌==◌, ◌&&◌, if◌then◌else◌}
use pcrf.Types.{OtlValue, AbonRule, initial_request, update_request}
use pcrf.Common.Text.{Text}
use pcrf.Common.Map.{Map}
use pcrf.Subscribers.{SubscriptionMaps}
use pcrf.Refresh.{LocalQueue}
use pcrf.Timed.{MonitoringInfo}
use pcrf.Ipc.Codes.{Codes, PsPacket}
use pcrf.Ipc.Process.{Node}
use pcrf.Gx.{Ccr, ccr_cb}
use pcrf.Messages.{Avps, nil, ◌then_add◌}
use pcrf.Messages.Dictionary.{Headers}
use pcrf.Procera.Tethering.{Tethering, oper_thetering_report}
use pcrf.Messages.Usage.{make_umi}
use pcrf.Messages.Rules.{RuleDefinition, RequestQos}
use pcrf.Messages.Request.{MessageData, Library, new_message_data}
use pcrf.Messages.Extraction.{extract_req_data}
use pcrf.Messages.Answer.{
  set_event_trigger, common_avps, initial_answer, accept_bearer, operate_rules, event_triggers,
}

-- The request: the data of its AVPs, and what the handler then does.
unfoldable pub ccr_message :
    PsPacket
    → Codes
    → List (Option ℕ)
    → SubscriptionMaps
    → Bool
    → Bool
    → Bool
    → Library
    → Avps
    → LocalQueue
    → Node
    → Option (MessageData × (Ccr × (Node × List (ℕ × Text))))
unfolding extract_req_data ccr_cb
ccr_message p k nodes m generate_cdr look given lib l queue n =
    elim (extract_req_data lib l new_message_data) [
      | none ↦ none
      | some d ↦ some (d, ccr_cb p k nodes m generate_cdr look given d.info d.req queue n)
    ]

-- The members of the request that the rules are made with.
unfoldable pub request_qos : MessageData → RequestQos
request_qos d = record {
  ip_can_type_code = d.req.user_environment.ip_can_type_code;
  bearer_identifier = d.bearer_identifier;
  max_requested_bandwidth_ul = d.max_requested_bandwidth_ul;
  max_requested_bandwidth_dl = d.max_requested_bandwidth_dl;
  guaranteed_bitrate_ul = d.guaranteed_bitrate_ul;
  guaranteed_bitrate_dl = d.guaranteed_bitrate_dl;
  qos_information = d.qos_information;
  default_bearer = d.default_bearer;
}

unfoldable pub trigger_avps : Headers → List ℕ → Avps
unfolding set_event_trigger ◌then_add◌
trigger_avps new [] = nil
trigger_avps new (t ∷ ts) = set_event_trigger new t then_add trigger_avps new ts

unfoldable pub rules_of : List RuleDefinition → List AbonRule
rules_of [] = []
rules_of (r ∷ rs) = r.rule ∷ rules_of rs

-- The rules, the active rules and the tethering of the sessions, behind the answer to an update
-- request with ACTION_PROCERA_STORE_THET_INFO.
unfoldable pub report_tethering : OtlValue ℕ → Ccr → Tethering → Tethering
unfolding oper_thetering_report
report_tethering flag c t =
    if c.req.cc_request_type == update_request && c.action_set.procera_store_thet_info
    then oper_thetering_report c.info.session_id flag t
    else t

-- The rules that the loop over them meets.
unfoldable pub rules_after :
    Map ℕ → List AbonRule → List RuleDefinition → MessageData → Ccr → List AbonRule
unfolding report_tethering rules_of
rules_after sessions active rules d c =
    (report_tethering d.tethering_flag c
      (record { sessions = sessions; rules = rules_of rules; active = active })).rules

-- The answer, with the locals after the switch and what was loaded for them: the quotas, the
-- tethering of the sessions, the active rules and the rules of the profile. The other calls of the
-- update branch add nothing to the answer: the insertion into the session cache is update_cache.
unfoldable pub answer_avps :
    Headers
    → (ℕ → Avps)
    → ℕ
    → Map MonitoringInfo
    → Map ℕ
    → List AbonRule
    → List RuleDefinition
    → MessageData
    → Ccr
    → Avps
unfolding common_avps initial_answer accept_bearer operate_rules make_umi event_triggers
    trigger_avps request_qos rules_after ◌then_add◌
answer_avps new rescode state_id quotas sessions active rules d c =
    let e = record d { info = c.info; req = c.req } in
    let q = request_qos e in
    let common = common_avps new rescode c.result_code state_id e in
    let type = c.req.cc_request_type in
    let body =
      if type == initial_request
      then initial_answer new e (some q) quotas rules common
      else if type == update_request
      then operate_rules new c.action_set e (some q) active rules
          (accept_bearer new c.action_set e common)
        then_add make_umi new false quotas
      else common in
    body
    then_add trigger_avps new (
        event_triggers type c.action_set c.info.peer_dialect
          (rules_after sessions active rules d c))
