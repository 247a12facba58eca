-- ===== src/Messages/Rules.antt =====
-- The quality of service of a rule in src/pcrf_server.cpp: pcrf_make_QoSI, and the data that the
-- AVPs of a rule are made from.
pub mod Bandwidth
use pcrf.Common.{
  ℕ, ◌-◌, ◌%◌, Bool, true, false, not, ◌&&◌, ◌||◌, Option, none, some, List, [], ◌∷◌, ◌++◌, ◌==◌,
  ltb, if◌then◌else◌,
}
use pcrf.Common.Text.{Text}
use pcrf.Common.Int.{ℤ, pos, negsuc}
use pcrf.Types.{OtlValue, OtlText, AbonRule, gx_hw_ugw, gx_cisco_sce, gx_procera, gx_ericssn}
use pcrf.Messages.{
  Header, Value, number, octets, group, Avp, avp, Avps, nil, cons, ◌then_add◌, one,
  number_unless_null, octets_unless_null,
}
use pcrf.Messages.Dictionary.{
  Headers, Criterion, avp_auth_application_id, avp_result_code, avp_cc_request_type,
  avp_cc_request_number, avp_origin_state_id, avp_supported_features, avp_vendor_id,
  avp_feature_list_id, avp_feature_list, avp_event_trigger, avp_charging_rule_install,
  avp_charging_rule_remove, avp_bearer_identifier, avp_charging_rule_definition,
  avp_charging_rule_base_name, avp_charging_rule_name, avp_rating_group, avp_service_identifier,
  avp_flow_status, avp_bearer_control_mode, avp_flow_description, avp_flow_direction,
  avp_flow_information, avp_qos_information, avp_qos_class_identifier,
  avp_max_requested_bandwidth_ul, avp_max_requested_bandwidth_dl, avp_guaranteed_bitrate_ul,
  avp_guaranteed_bitrate_dl, avp_allocation_retention_priority, avp_default_eps_bearer_qos,
  avp_priority_level, avp_preemption_capability, avp_preemption_vulnerability, avp_reporting_level,
  avp_online, avp_offline, avp_metering_method, avp_precedence, avp_monitoring_key,
  avp_redirect_server, avp_redirect_address_type, avp_redirect_server_address,
  avp_usage_monitoring_information, avp_granted_service_unit, avp_cc_total_octets,
  avp_cc_input_octets, avp_cc_output_octets, avp_usage_monitoring_level,
  avp_usage_monitoring_report, avp_subscription_id, avp_subscription_id_type,
  avp_subscription_id_data, avp_apn_aggregate_max_bitrate_dl, avp_apn_aggregate_max_bitrate_ul,
  avp_cisco_bb_package_install, avp_cisco_bb_rt_monitor_install, avp_cisco_bb_vlink_ustream_install,
  avp_cisco_bb_vlink_dstream_install,
}
use pcrf.Messages.Qos.{RetentionPriority, DefaultBearer, QosInformation}

-- SFlowInformation.
pub record FlowInformation : Type 0 where
  pub flow_description : OtlText
  pub flow_direction : OtlValue ℕ

-- SDBAbonRule: the members that decide about a rule, and those that only go into its AVPs. Of the
-- latter an int32_t is its bit pattern.
pub record RuleDefinition : Type 0 where
  pub rule : AbonRule
  pub flow_status : OtlValue ℕ
  pub rating_group_id : OtlValue ℕ
  pub service_id : OtlValue ℕ
  pub metering_method : OtlValue ℕ
  pub reporting_level : OtlValue ℕ
  pub online_charging : OtlValue ℕ
  pub offline_charging : OtlValue ℕ
  pub qos_class_identifier : OtlValue ℕ
  pub arp : RetentionPriority
  pub max_requested_bandwidth_ul : OtlValue ℕ
  pub max_requested_bandwidth_dl : OtlValue ℕ
  pub guaranteed_bitrate_ul : OtlValue ℕ
  pub guaranteed_bitrate_dl : OtlValue ℕ
  pub redirect_address_type : OtlValue ℕ
  pub redirect_server_address : OtlText
  pub flow_descr : List FlowInformation
  pub sce_package_id : OtlValue ℕ
  pub sce_real_time_monitor : OtlValue ℕ
  pub sce_up_virtual_link : OtlValue ℕ
  pub sce_down_virtual_link : OtlValue ℕ

-- The members of SRequestInfo that these functions read.
pub record RequestQos : Type 0 where
  pub ip_can_type_code : ℕ
  pub bearer_identifier : OtlText
  pub max_requested_bandwidth_ul : OtlValue ℕ
  pub max_requested_bandwidth_dl : OtlValue ℕ
  pub guaranteed_bitrate_ul : OtlValue ℕ
  pub guaranteed_bitrate_dl : OtlValue ℕ
  pub qos_information : OtlValue QosInformation
  pub default_bearer : OtlValue DefaultBearer

-- `value > limit ? limit : value`.
unfoldable lesser : ℕ → ℕ → ℕ
lesser value limit = if ltb limit value then limit else value

-- `value` where the limit is null.
unfoldable at_most : ℕ → OtlValue ℕ → ℕ
unfolding lesser
at_most value limit = if limit.is_null then value else lesser value limit.v

-- The two limits of the request: what it asks for, and the aggregate of the APN, which is taken
-- where `applies`; `none` is a null pointer to the request.
unfoldable pub limited : ℕ → OtlValue ℕ → Bool → OtlValue ℕ → ℕ
unfolding at_most
limited value requested applies aggregate =
    let v = at_most value requested in if applies then at_most v aggregate else v

unfoldable pub max_ul : Option RequestQos → ℕ → ℕ
unfolding limited
max_ul none value = value
max_ul (some q) value =
    limited value q.max_requested_bandwidth_ul (not q.qos_information.is_null)
      q.qos_information.v.apn_aggregate_max_bitrate_ul

unfoldable pub max_dl : Option RequestQos → ℕ → ℕ
unfolding limited
max_dl none value = value
max_dl (some q) value =
    limited value q.max_requested_bandwidth_dl (not q.qos_information.is_null)
      q.qos_information.v.apn_aggregate_max_bitrate_dl

unfoldable pub guaranteed_ul : Option RequestQos → ℕ → ℕ
unfolding limited
guaranteed_ul none value = value
guaranteed_ul (some q) value =
    limited value q.guaranteed_bitrate_ul (not q.qos_information.is_null)
      q.qos_information.v.apn_aggregate_max_bitrate_ul

-- Here the aggregate is taken where the QoS-Information is null.
unfoldable pub guaranteed_dl : Option RequestQos → ℕ → ℕ
unfolding limited
guaranteed_dl none value = value
guaranteed_dl (some q) value =
    limited value q.guaranteed_bitrate_dl q.qos_information.is_null
      q.qos_information.v.apn_aggregate_max_bitrate_dl

-- The AVP for one of the four, where the rule has a value.
unfoldable make_bitrate : Header → OtlValue ℕ → (ℕ → ℕ) → Avps
unfolding one
make_bitrate h o limit = if o.is_null then nil else one h (number (limit o.v))

-- The Priority-Level: of the rule, or else of the default bearer, or else 2.
unfoldable bearer_priority : Option RequestQos → ℕ
bearer_priority none = 2
bearer_priority (some q) =
    if q.default_bearer.is_null || q.default_bearer.v.arp.is_null
      || q.default_bearer.v.arp.v.priority_level.is_null
    then 2
    else q.default_bearer.v.arp.v.priority_level.v

unfoldable make_rule_arp : Headers → Option RequestQos → RetentionPriority → Avps
unfolding one ◌then_add◌ number_unless_null bearer_priority
make_rule_arp new q a =
    one (new avp_priority_level)
      (number (if a.priority_level.is_null then bearer_priority q else a.priority_level.v))
    then_add number_unless_null (new avp_preemption_capability) a.preemption_capability
    then_add number_unless_null (new avp_preemption_vulnerability) a.preemption_vulnerability

-- pcrf_make_QoSI: the AVPs of the group.
unfoldable pub make_qosi : Headers → Option RequestQos → RuleDefinition → Avps
unfolding max_ul max_dl guaranteed_ul guaranteed_dl make_bitrate make_rule_arp
make_qosi new q r =
    number_unless_null (new avp_qos_class_identifier) r.qos_class_identifier
    then_add make_bitrate (new avp_max_requested_bandwidth_ul) r.max_requested_bandwidth_ul
        (max_ul q)
    then_add make_bitrate (new avp_max_requested_bandwidth_dl) r.max_requested_bandwidth_dl
        (max_dl q)
    then_add make_bitrate (new avp_guaranteed_bitrate_ul) r.guaranteed_bitrate_ul (guaranteed_ul q)
    then_add make_bitrate (new avp_guaranteed_bitrate_dl) r.guaranteed_bitrate_dl (guaranteed_dl q)
    then_add one (new avp_allocation_retention_priority) (group (make_rule_arp new q r.arp))
