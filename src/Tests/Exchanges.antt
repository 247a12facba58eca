-- ===== src/Tests/Exchanges.antt =====
-- The theorems on the messages of app_pcrf_ccr_cb of src/pcrf_server.cpp, for a termination request
-- and for an answer to an update request, and on the reports of src/procera/pcrf_procera.cpp.
use pcrf.Common.{ℕ, ◌≡◌, refl, true, false, none, some, List, [], ◌∷◌, ◌==◌, ◌&&◌, if◌then◌else◌}
use pcrf.Common.Text.{Text, text_eq}
use pcrf.Common.Map.{find}
use pcrf.Types.{
  AbonRule, to_otl, new_session_info, gx_procera, initial_request, termination_request,
  update_request,
}
use pcrf.Rules.Actions.{no_action, is_ipcan_dialect}
use pcrf.Subscribers.Lookup.{no_maps}
use pcrf.Session.Store.{cache_of}
use pcrf.Ipc.Process.{Node}
use pcrf.Gx.{Ccr}
use pcrf.Gx.Exchange.{ccr_message, answer_avps, rules_of, rules_after, report_tethering}
use pcrf.Gx.Exchange.Identified.{find-ccr_message}
use pcrf.Gx.Exchange.Parts.{triggers_in}
use pcrf.Gx.Exchange.Reports.{triggers_in-answer_avps}
use pcrf.Procera.Tethering.Reports.{run_reports, is_recorded, next, find-run_reports}
use pcrf.Procera.Tethering.{Tethering, oper_thetering_report, first_report, add_redirect}
use pcrf.Messages.{Header, Avps, nil, cons, avp, number, octets, one}
use pcrf.Messages.Dictionary.{standard, avp_result_code}
use pcrf.Messages.Request.{MessageData, new_message_data}
use pcrf.Messages.Extraction.Texts.{session_ids, is_session_id, are_readable, is_readable}
use pcrf.Messages.Answer.{is_changed, is_monitored, has_key, event_triggers}
use pcrf.Messages.Answer.Triggers.{any_changed, any_monitored}
use pcrf.Messages.Rules.Bandwidth.{stands_in}
use pcrf.Tests.Packets.{codes, packets}
use pcrf.Tests.Avps.{no_names, id_header, definition, new_group}
use pcrf.Tests.Requests.{gx_id, core_node}

abbrev type_header : Header
type_header = record { code = 416; vendor = 0; flag_vendor = false }

abbrev termination_message : Avps
termination_message =
    cons (avp id_header (octets gx_id)) (cons (avp type_header (number termination_request)) nil)

find-ccr_message_example :
    (d : MessageData) × (r : Ccr × (Node × List (ℕ × Text))) × (ccr_message packets codes [] no_maps
        false true true no_names termination_message [] core_node
      ≡ some (d, r))
    × (find gx_id r.1.0.store.sessions ≡ (
        if d.req.cc_request_type == initial_request
        then some (cache_of r.0.info (some r.0.req))
        else if d.req.cc_request_type == termination_request
        then none
        else if d.req.cc_request_type == update_request && r.0.action_set.update_sessioncache
        then some (cache_of r.0.info (some r.0.req))
        else find gx_id core_node.store.sessions))
unfolding session_ids is_session_id are_readable is_readable
find-ccr_message_example =
    find-ccr_message packets codes [] no_maps false true true no_names termination_message []
      core_node refl refl

-- An update request of a Procera that reports tethering, with an active group that has a monitoring
-- key: only the rule of the report is to be installed.
abbrev procera_locals : Ccr
procera_locals = record {
  info = record new_session_info { peer_dialect = gx_procera };
  req = record new_message_data.req { cc_request_type = update_request };
  action_set = record no_action { operate_rule = true; procera_store_thet_info = true };
  result_code = 2001;
  ipcan_session_id = none;
  sess_should_be_term = none;
  calls = [];
  refresh_queue = [];
}

abbrev active_group : AbonRule
active_group = record new_group { is_active = true }

abbrev tethering_message : MessageData
tethering_message = record new_message_data { tethering_flag = to_otl 1 }

abbrev result : ℕ → Avps
result code = one (standard avp_result_code) (number code)

result_without_trigger : triggers_in (result 2001) ≡ []
unfolding triggers_in standard one
result_without_trigger = refl

triggers_in-answer_avps_example :
    let triggers = triggers_in (
      answer_avps standard result 1 [] [] []
        (definition active_group ∷ [])
        tethering_message
        procera_locals) in
    (triggers ≡ 33 ∷ []) × (stands_in 33 triggers ≡ true)
unfolding event_triggers rules_after report_tethering oper_thetering_report first_report
    add_redirect find rules_of any_changed any_monitored is_changed is_monitored has_key
    is_ipcan_dialect
triggers_in-answer_avps_example =
    triggers_in-answer_avps standard result 1 [] [] [] (definition active_group ∷ [])
      tethering_message procera_locals (λ c. refl) result_without_trigger

-- Two reports with the flag 0: the first one records the session, the second one removes it.
abbrev second_zero : Tethering
second_zero =
    oper_thetering_report gx_id (to_otl 0)
      (record { sessions = run_reports ((gx_id, to_otl 0) ∷ []) []; rules = []; active = [] })

find-run_reports_example : (find gx_id second_zero.sessions ≡ none) × (second_zero.rules ≡ [])
unfolding is_recorded next text_eq
find-run_reports_example = find-run_reports ((gx_id, to_otl 0) ∷ []) gx_id (to_otl 0) [] []
