-- ===== src/Messages/Answer.antt =====
-- The AVPs of the answer to a credit control request: app_pcrf_ccr_cb of src/pcrf_server.cpp from the
-- answer header on. What the branches call in other components is not repeated here.
pub mod Copied
pub mod Triggers
use pcrf.Common.{
  ℕ, Bool, true, false, not, ◌&&◌, ◌||◌, Option, none, some, List, [], ◌∷◌, ◌++◌, ◌==◌,
  if◌then◌else◌,
}
use pcrf.Common.Text.{Text}
use pcrf.Common.Map.{Map}
use pcrf.Types.{
  AbonRule, gx_hw_ugw, gx_cisco_sce, gx_procera, gx_ericssn, initial_request, update_request,
}
use pcrf.Timed.{MonitoringInfo}
use pcrf.Rules.Actions.{ActionSet, is_ipcan_dialect}
use pcrf.Messages.{Header, Value, number, octets, group, Avp, avp, Avps, nil, cons, ◌then_add◌, one}
use pcrf.Messages.Dictionary.{
  Headers, avp_event_trigger, avp_auth_application_id, avp_cc_request_type, avp_cc_request_number,
  avp_origin_state_id, avp_bearer_control_mode, avp_charging_rule_install, avp_charging_rule_remove,
}
use pcrf.Messages.Qos.{make_default_eps_bearer_qos, make_qos_information}
use pcrf.Messages.Features.{make_supported_features}
use pcrf.Messages.Identity.{procera_make_subscription_id}
use pcrf.Messages.Usage.{make_umi}
use pcrf.Messages.Rules.{RuleDefinition, RequestQos}
use pcrf.Messages.Charging.{Installation, make_crr, make_cri}
use pcrf.Messages.Request.{MessageData}

-- set_event_trigger.
unfoldable pub set_event_trigger : Headers → ℕ → Avps
unfolding one
set_event_trigger new n = one (new avp_event_trigger) (number n)

-- Auth-Application-Id, the result code that fd_msg_rescode_set puts, and the numbers of the request.
unfoldable pub common_avps : Headers → (ℕ → Avps) → ℕ → ℕ → MessageData → Avps
unfolding one ◌then_add◌
common_avps new rescode result_code state_id d =
    one (new avp_auth_application_id) (number 16777238)
    then_add rescode result_code
    then_add one (new avp_cc_request_type) (number d.req.cc_request_type)
    then_add one (new avp_cc_request_number) (number d.cc_request_number.v)
    then_add one (new avp_origin_state_id) (number state_id)

-- Default-EPS-Bearer-QoS and QoS-Information, as the request has them.
unfoldable pub bearer_avps : Headers → MessageData → Avps
unfolding ◌then_add◌ make_default_eps_bearer_qos make_qos_information
bearer_avps new d =
    make_default_eps_bearer_qos new d.default_bearer
    then_add make_qos_information new d.qos_information

-- The event trigger 777 and the subscriber, for a Procera.
unfoldable pub procera_avps : Headers → MessageData → Avps
unfolding ◌then_add◌ set_event_trigger procera_make_subscription_id
procera_avps new d =
    if d.info.peer_dialect == gx_procera
    then set_event_trigger new 777
      then_add procera_make_subscription_id new d.info.subscription_data.end_user_imsi
          d.info.subscription_data.end_user_e164
    else nil

-- What the answer to an initial request takes over from it.
unfoldable pub copied_avps : Headers → MessageData → Avps
unfolding ◌then_add◌ procera_avps bearer_avps make_supported_features
copied_avps new d =
    make_supported_features new d.supported_features
    then_add procera_avps new d
    then_add bearer_avps new d

-- A group that is added where there is one.
unfoldable pub group_unless_none : Header → Option Avps → Avps
unfolding one
group_unless_none h none = nil
group_unless_none h (some l) = one h (group l)

-- The answer to an initial request, with the AVPs that are in it already.
unfoldable pub initial_answer :
    Headers
    → MessageData
    → Option RequestQos
    → Map MonitoringInfo
    → List RuleDefinition
    → Avps
    → Avps
unfolding copied_avps make_umi make_cri group_unless_none one ◌then_add◌
initial_answer new d q quotas rules answer =
    let m =
      make_cri new d.info.peer_dialect q rules
        (answer then_add (copied_avps new d then_add make_umi new false quotas)) in
    m.answer
    then_add group_unless_none (new avp_charging_rule_install) m.cri
    then_add one (new avp_bearer_control_mode) (number 2)

-- The answer to an update request: the bearer that is accepted.
unfoldable pub accept_bearer : Headers → ActionSet → MessageData → Avps → Avps
unfolding bearer_avps ◌then_add◌
accept_bearer new a d answer =
    if a.copy_defbearer then answer then_add bearer_avps new d else answer

-- The rules that are removed and installed.
unfoldable pub operate_rules :
    Headers
    → ActionSet
    → MessageData
    → Option RequestQos
    → List AbonRule
    → List RuleDefinition
    → Avps
    → Avps
unfolding make_crr make_cri group_unless_none ◌then_add◌
operate_rules new a d q active rules answer =
    let removed =
      answer
      then_add group_unless_none (new avp_charging_rule_remove)
          (make_crr new d.info.peer_dialect active).crr in
    let m = make_cri new d.info.peer_dialect q rules removed in
    if a.operate_rule
    then m.answer then_add group_unless_none (new avp_charging_rule_install) m.cri
    else answer

-- The tests of the loop over the rules: rules to install or to remove, and monitoring keys.
unfoldable pub is_changed : AbonRule → Bool
is_changed r = (not r.is_active && r.is_relevant) || (r.is_active && not r.is_relevant)

unfoldable pub has_key : List Text → Bool
has_key [] = false
has_key (_ ∷ _) = true

unfoldable pub is_monitored : AbonRule → Bool
unfolding has_key
is_monitored r = r.is_relevant && has_key r.monit_key

-- The loop, which ends when bRulesChanged and bMKInstalled are both set.
unfoldable pub look_at_rules : List AbonRule → Bool × Bool → Bool × Bool
unfolding is_changed is_monitored
look_at_rules [] s = s
look_at_rules (r ∷ rs) (changed, monitored) =
    let c = changed || is_changed r in
    let m = monitored || is_monitored r in
    let rest = look_at_rules rs (c, m) in if c && m then (c, m) else rest

-- The event triggers, where the loop has run for the rules and has left the two flags.
unfoldable pub triggers_of : ℕ → Bool → List ℕ
unfolding is_ipcan_dialect
triggers_of dialect monitored =
    (if is_ipcan_dialect dialect then 2 ∷ [] else [])
    ++ ((if dialect == gx_hw_ugw then 101 ∷ [] else [])
        ++ ((if is_ipcan_dialect dialect then 13 ∷ (0 ∷ []) else [])
            ++ (if monitored
                then (if is_ipcan_dialect dialect || dialect == gx_procera
                    then 33 ∷ []
                    else if dialect == gx_cisco_sce
                    then 26 ∷ []
                    else [])
                else [])))

unfoldable pub event_triggers : ℕ → ActionSet → ℕ → List AbonRule → List ℕ
unfolding look_at_rules triggers_of
event_triggers request_type a dialect rules =
    let (changed, monitored) =
      if a.operate_rule then look_at_rules rules (false, false) else (false, false) in
    if request_type == initial_request || request_type == update_request && changed
    then triggers_of dialect monitored
    else []
