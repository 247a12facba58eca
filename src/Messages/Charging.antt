-- ===== src/Messages/Charging.antt =====
-- The AVPs for the rules of a session in src/pcrf_server.cpp: pcrf_make_CRD, pcrf_make_CRI,
-- pcrf_make_CRR and pcrf_set_CRN.
pub mod Names
pub mod Installed
use pcrf.Common.{
  ℕ, ◌-◌, ◌%◌, Bool, true, false, not, ◌&&◌, ◌||◌, Option, none, some, List, [], ◌∷◌, ◌++◌, ◌==◌,
  if◌then◌else◌,
}
use pcrf.Common.Text.{Text}
use pcrf.Common.Int.{ℤ, pos, negsuc}
use pcrf.Types.{OtlValue, OtlText, AbonRule, gx_hw_ugw, gx_cisco_sce, gx_procera, gx_ericssn}
use pcrf.Messages.{
  Header, Value, number, octets, group, Avp, avp, Avps, nil, cons, ◌then_add◌, one,
  number_unless_null, octets_unless_null,
}
use pcrf.Messages.Dictionary.{
  Headers, avp_auth_application_id, avp_result_code, avp_cc_request_type, avp_cc_request_number,
  avp_origin_state_id, avp_supported_features, avp_vendor_id, avp_feature_list_id, avp_feature_list,
  avp_event_trigger, avp_charging_rule_install, avp_charging_rule_remove, avp_bearer_identifier,
  avp_charging_rule_definition, avp_charging_rule_base_name, avp_charging_rule_name,
  avp_rating_group, avp_service_identifier, avp_flow_status, avp_bearer_control_mode,
  avp_flow_description, avp_flow_direction, avp_flow_information, avp_qos_information,
  avp_qos_class_identifier, avp_max_requested_bandwidth_ul, avp_max_requested_bandwidth_dl,
  avp_guaranteed_bitrate_ul, avp_guaranteed_bitrate_dl, avp_allocation_retention_priority,
  avp_default_eps_bearer_qos, avp_priority_level, avp_preemption_capability,
  avp_preemption_vulnerability, avp_reporting_level, avp_online, avp_offline, avp_metering_method,
  avp_precedence, avp_monitoring_key, avp_redirect_server, avp_redirect_address_type,
  avp_redirect_server_address, avp_usage_monitoring_information, avp_granted_service_unit,
  avp_cc_total_octets, avp_cc_input_octets, avp_cc_output_octets, avp_usage_monitoring_level,
  avp_usage_monitoring_report, avp_subscription_id, avp_subscription_id_type,
  avp_subscription_id_data, avp_apn_aggregate_max_bitrate_dl, avp_apn_aggregate_max_bitrate_ul,
  avp_cisco_bb_package_install, avp_cisco_bb_rt_monitor_install, avp_cisco_bb_vlink_ustream_install,
  avp_cisco_bb_vlink_dstream_install,
}
use pcrf.Messages.Rules.{FlowInformation, RuleDefinition, RequestQos, make_qosi}

-- An int32_t as uint32_t, and as a condition.
unfoldable to_u32 : ℤ → ℕ
to_u32 (pos n) = n % 4294967296
to_u32 (negsuc n) = 4294967295 - n % 4294967296

unfoldable pub is_true : OtlValue ℤ → Bool
is_true o = if o.is_null then false else elim o.v [ pos n ↦ not (n == 0) | negsuc _ ↦ true ]

-- A rule of a group, and a dynamic rule.
abbrev pub is_group : AbonRule → Bool
is_group r = is_true r.rule_group_flag

-- Flow-Information of each flow.
unfoldable make_flows : Headers → List FlowInformation → Avps
unfolding ◌then_add◌ number_unless_null octets_unless_null
make_flows new [] = nil
make_flows new (f ∷ fs) =
    cons
      (avp (new avp_flow_information) (
        group (
          octets_unless_null (new avp_flow_description) f.flow_description
          then_add number_unless_null (new avp_flow_direction) f.flow_direction)))
      (make_flows new fs)

unfoldable make_precedence : Headers → OtlValue ℤ → Avps
unfolding one to_u32
make_precedence new o = if o.is_null then nil else one (new avp_precedence) (number (to_u32 o.v))

-- The first of the monitoring keys.
unfoldable make_monitoring_key : Headers → List Text → Avps
unfolding one
make_monitoring_key new [] = nil
make_monitoring_key new (key ∷ _) = one (new avp_monitoring_key) (octets key)

unfoldable make_redirect : Headers → OtlValue ℕ → OtlText → Avps
unfolding one ◌then_add◌
make_redirect new type address =
    if not type.is_null && not address.is_null
    then one (new avp_redirect_server) (
        group (
          one (new avp_redirect_address_type) (number type.v)
          then_add one (new avp_redirect_server_address) (octets address.v)))
    else nil

-- The AVPs of Charging-Rule-Definition behind the name.
unfoldable make_definition : Headers → Option RequestQos → RuleDefinition → Avps
unfolding make_flows make_precedence make_monitoring_key make_redirect
make_definition new q r =
    number_unless_null (new avp_service_identifier) r.service_id
    then_add number_unless_null (new avp_flow_status) r.flow_status
    then_add number_unless_null (new avp_rating_group) r.rating_group_id
    then_add make_flows new r.flow_descr
    then_add one (new avp_qos_information) (group (make_qosi new q r))
    then_add number_unless_null (new avp_reporting_level) r.reporting_level
    then_add number_unless_null (new avp_online) r.online_charging
    then_add number_unless_null (new avp_offline) r.offline_charging
    then_add number_unless_null (new avp_metering_method) r.metering_method
    then_add make_precedence new r.rule.precedence_level
    then_add make_monitoring_key new r.rule.monit_key
    then_add make_redirect new r.redirect_address_type r.redirect_server_address

-- pcrf_set_CRN: the name of a rule or of a group of rules.
unfoldable pub set_crn : Headers → Bool → Text → Avp
set_crn new grouped name =
    if grouped
    then avp (new avp_charging_rule_base_name) (octets name)
    else avp (new avp_charging_rule_name) (octets name)

-- pcrf_make_CRD.
unfoldable pub make_crd : Headers → Option RequestQos → RuleDefinition → Avp
unfolding is_true make_definition set_crn
make_crd new q r =
    if is_true r.rule.dynamic_rule_flag
    then avp (new avp_charging_rule_definition)
        (group (cons (set_crn new false r.rule.rule_name) (make_definition new q r)))
    else set_crn new (is_group r.rule) r.rule.rule_name

-- `case GX_HW_UGW: case GX_PROCERA: case GX_ERICSSN:`.
unfoldable pub has_charging_rules : ℕ → Bool
has_charging_rules dialect = dialect == gx_hw_ugw || dialect == gx_procera || dialect == gx_ericssn

-- What pcrf_make_CRR comes to: the children of Charging-Rule-Remove, and the rules that
-- pcrf_db_close_session_rule is called for.
pub record Removal : Type 0 where
  pub crr : Option Avps
  pub closed : List Text

-- An AVP that is added to a group which is made when it is first needed.
unfoldable pub add_child : Avps → Avp → Option Avps → Option Avps
unfolding ◌then_add◌
add_child first a none = some (first then_add cons a nil)
add_child first a (some l) = some (l then_add cons a nil)

unfoldable pub remove_rule : Headers → ℕ → AbonRule → Removal → Removal
unfolding add_child set_crn has_charging_rules is_true
remove_rule new dialect r m =
    if r.is_relevant
    then m
    else if has_charging_rules dialect
    then record {
      crr = add_child nil (set_crn new (is_group r) r.rule_name) m.crr;
      closed = m.closed ++ r.rule_name ∷ [];
    }
    else if dialect == gx_cisco_sce
    then record m { closed = m.closed ++ r.rule_name ∷ [] }
    else m

unfoldable pub remove_rules : Headers → ℕ → List AbonRule → Removal → Removal
unfolding remove_rule
remove_rules new dialect [] m = m
remove_rules new dialect (r ∷ rs) m = remove_rules new dialect rs (remove_rule new dialect r m)

-- pcrf_make_CRR.
unfoldable pub make_crr : Headers → ℕ → List AbonRule → Removal
unfolding remove_rules
make_crr new dialect rs = remove_rules new dialect rs (record { crr = none; closed = [] })

-- What pcrf_make_CRI comes to: the children of Charging-Rule-Install, the AVPs that it adds to the
-- answer itself, and the rules that pcrf_db_insert_rule is called for.
pub record Installation : Type 0 where
  pub cri : Option Avps
  pub answer : Avps
  pub inserted : List RuleDefinition

-- Bearer-Identifier, with which Charging-Rule-Install begins.
unfoldable pub bearer : Headers → Option RequestQos → Avps
unfolding one
bearer new none = nil
bearer new (some q) =
    if q.ip_can_type_code == 0 && not q.bearer_identifier.is_null
    then one (new avp_bearer_identifier) (octets q.bearer_identifier.v)
    else nil

unfoldable pub cisco_avps : Headers → RuleDefinition → Avps
unfolding ◌then_add◌ number_unless_null
cisco_avps new r =
    number_unless_null (new avp_cisco_bb_package_install) r.sce_package_id
    then_add number_unless_null (new avp_cisco_bb_rt_monitor_install) r.sce_real_time_monitor
    then_add number_unless_null (new avp_cisco_bb_vlink_ustream_install) r.sce_up_virtual_link
    then_add number_unless_null (new avp_cisco_bb_vlink_dstream_install) r.sce_down_virtual_link

unfoldable pub install_rule :
    Headers → ℕ → Option RequestQos → RuleDefinition → Installation → Installation
unfolding bearer add_child make_crd cisco_avps has_charging_rules ◌then_add◌
install_rule new dialect q r m =
    if has_charging_rules dialect
    then (if r.rule.is_active then m else record m {
      cri = add_child (bearer new q) (make_crd new q r) m.cri;
      inserted = m.inserted ++ r ∷ [];
    })
    else if dialect == gx_cisco_sce
    then record m {
      answer = m.answer then_add cisco_avps new r;
      inserted = if r.rule.is_active then m.inserted else m.inserted ++ r ∷ [];
    }
    else m

unfoldable pub install_rules :
    Headers → ℕ → Option RequestQos → List RuleDefinition → Installation → Installation
unfolding install_rule
install_rules new dialect q [] m = m
install_rules new dialect q (r ∷ rs) m =
    install_rules new dialect q rs (install_rule new dialect q r m)

-- pcrf_make_CRI, with the answer so far.
unfoldable pub make_cri :
    Headers → ℕ → Option RequestQos → List RuleDefinition → Avps → Installation
unfolding install_rules
make_cri new dialect q rs answer =
    install_rules new dialect q rs (record { cri = none; answer = answer; inserted = [] })
