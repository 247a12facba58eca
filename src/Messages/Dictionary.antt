-- ===== src/Messages/Dictionary.antt =====
-- The AVPs of the dictionary that src/app_pcrf_dict.cpp looks up, one constant for each g_psoDict
-- variable: by a name of the base protocol, or by vendor and code.
use pcrf.Common.{ℕ, ◌≡◌, true, false}
use pcrf.Messages.{Header}

-- The names that are passed with AVP_BY_NAME.
pub data BaseName : Type 0 where
  auth_application_id : BaseName
  result_code : BaseName
  cc_request_type : BaseName
  cc_request_number : BaseName
  origin_state_id : BaseName
  vendor_id : BaseName
  rating_group : BaseName
  service_identifier : BaseName
  redirect_server : BaseName
  redirect_address_type : BaseName
  redirect_server_address : BaseName
  granted_service_unit : BaseName
  cc_total_octets : BaseName
  cc_input_octets : BaseName
  cc_output_octets : BaseName
  subscription_id : BaseName
  subscription_id_type : BaseName
  subscription_id_data : BaseName

-- AVP_BY_NAME, and AVP_BY_STRUCT with the vendor and the code.
pub data Criterion : Type 0 where
  by_name : BaseName → Criterion
  by_struct : ℕ → ℕ → Criterion

-- The codes that RFC 6733 and RFC 4006 give to the names; the code names them in its comments.
unfoldable base_code : BaseName → ℕ
base_code BaseName.auth_application_id = 258
base_code BaseName.result_code = 268
base_code BaseName.cc_request_type = 416
base_code BaseName.cc_request_number = 415
base_code BaseName.origin_state_id = 278
base_code BaseName.vendor_id = 266
base_code BaseName.rating_group = 432
base_code BaseName.service_identifier = 439
base_code BaseName.redirect_server = 434
base_code BaseName.redirect_address_type = 433
base_code BaseName.redirect_server_address = 435
base_code BaseName.granted_service_unit = 431
base_code BaseName.cc_total_octets = 421
base_code BaseName.cc_input_octets = 412
base_code BaseName.cc_output_octets = 414
base_code BaseName.subscription_id = 443
base_code BaseName.subscription_id_type = 450
base_code BaseName.subscription_id_data = 444

-- The headers of the AVPs that fd_msg_avp_new makes from a dictionary with these codes: the vendor
-- and the code of the object, and the vendor flag where there is a vendor.
unfoldable pub standard : Criterion → Header
unfolding base_code
standard (by_name n) = record { code = base_code n; vendor = 0; flag_vendor = false }
standard (by_struct vendor code) = record { code = code; vendor = vendor; flag_vendor = true }

-- What fd_msg_avp_new makes from each object.
abbrev pub Headers : Type 0
Headers = Criterion → Header

abbrev pub IsStandard : Headers → Type 0
IsStandard new = (c : Criterion) → new c ≡ standard c

abbrev pub avp_auth_application_id : Criterion
avp_auth_application_id = by_name BaseName.auth_application_id

abbrev pub avp_result_code : Criterion
avp_result_code = by_name BaseName.result_code

abbrev pub avp_cc_request_type : Criterion
avp_cc_request_type = by_name BaseName.cc_request_type

abbrev pub avp_cc_request_number : Criterion
avp_cc_request_number = by_name BaseName.cc_request_number

abbrev pub avp_origin_state_id : Criterion
avp_origin_state_id = by_name BaseName.origin_state_id

abbrev pub avp_supported_features : Criterion
avp_supported_features = by_struct 10415 628

abbrev pub avp_vendor_id : Criterion
avp_vendor_id = by_name BaseName.vendor_id

abbrev pub avp_feature_list_id : Criterion
avp_feature_list_id = by_struct 10415 629

abbrev pub avp_feature_list : Criterion
avp_feature_list = by_struct 10415 630

abbrev pub avp_event_trigger : Criterion
avp_event_trigger = by_struct 10415 1006

abbrev pub avp_charging_rule_install : Criterion
avp_charging_rule_install = by_struct 10415 1001

abbrev pub avp_charging_rule_remove : Criterion
avp_charging_rule_remove = by_struct 10415 1002

abbrev pub avp_bearer_identifier : Criterion
avp_bearer_identifier = by_struct 10415 1020

abbrev pub avp_charging_rule_definition : Criterion
avp_charging_rule_definition = by_struct 10415 1003

abbrev pub avp_charging_rule_base_name : Criterion
avp_charging_rule_base_name = by_struct 10415 1004

abbrev pub avp_charging_rule_name : Criterion
avp_charging_rule_name = by_struct 10415 1005

abbrev pub avp_rating_group : Criterion
avp_rating_group = by_name BaseName.rating_group

abbrev pub avp_service_identifier : Criterion
avp_service_identifier = by_name BaseName.service_identifier

abbrev pub avp_flow_status : Criterion
avp_flow_status = by_struct 10415 511

abbrev pub avp_bearer_control_mode : Criterion
avp_bearer_control_mode = by_struct 10415 1023

abbrev pub avp_flow_description : Criterion
avp_flow_description = by_struct 10415 507

abbrev pub avp_flow_direction : Criterion
avp_flow_direction = by_struct 10415 1080

abbrev pub avp_flow_information : Criterion
avp_flow_information = by_struct 10415 1058

abbrev pub avp_qos_information : Criterion
avp_qos_information = by_struct 10415 1016

abbrev pub avp_qos_class_identifier : Criterion
avp_qos_class_identifier = by_struct 10415 1028

abbrev pub avp_max_requested_bandwidth_ul : Criterion
avp_max_requested_bandwidth_ul = by_struct 10415 516

abbrev pub avp_max_requested_bandwidth_dl : Criterion
avp_max_requested_bandwidth_dl = by_struct 10415 515

abbrev pub avp_guaranteed_bitrate_ul : Criterion
avp_guaranteed_bitrate_ul = by_struct 10415 1026

abbrev pub avp_guaranteed_bitrate_dl : Criterion
avp_guaranteed_bitrate_dl = by_struct 10415 1025

abbrev pub avp_allocation_retention_priority : Criterion
avp_allocation_retention_priority = by_struct 10415 1034

abbrev pub avp_default_eps_bearer_qos : Criterion
avp_default_eps_bearer_qos = by_struct 10415 1049

abbrev pub avp_priority_level : Criterion
avp_priority_level = by_struct 10415 1046

abbrev pub avp_preemption_capability : Criterion
avp_preemption_capability = by_struct 10415 1047

abbrev pub avp_preemption_vulnerability : Criterion
avp_preemption_vulnerability = by_struct 10415 1048

abbrev pub avp_reporting_level : Criterion
avp_reporting_level = by_struct 10415 1011

abbrev pub avp_online : Criterion
avp_online = by_struct 10415 1009

abbrev pub avp_offline : Criterion
avp_offline = by_struct 10415 1008

abbrev pub avp_metering_method : Criterion
avp_metering_method = by_struct 10415 1007

abbrev pub avp_precedence : Criterion
avp_precedence = by_struct 10415 1010

abbrev pub avp_monitoring_key : Criterion
avp_monitoring_key = by_struct 10415 1066

abbrev pub avp_redirect_server : Criterion
avp_redirect_server = by_name BaseName.redirect_server

abbrev pub avp_redirect_address_type : Criterion
avp_redirect_address_type = by_name BaseName.redirect_address_type

abbrev pub avp_redirect_server_address : Criterion
avp_redirect_server_address = by_name BaseName.redirect_server_address

abbrev pub avp_usage_monitoring_information : Criterion
avp_usage_monitoring_information = by_struct 10415 1067

abbrev pub avp_granted_service_unit : Criterion
avp_granted_service_unit = by_name BaseName.granted_service_unit

abbrev pub avp_cc_total_octets : Criterion
avp_cc_total_octets = by_name BaseName.cc_total_octets

abbrev pub avp_cc_input_octets : Criterion
avp_cc_input_octets = by_name BaseName.cc_input_octets

abbrev pub avp_cc_output_octets : Criterion
avp_cc_output_octets = by_name BaseName.cc_output_octets

abbrev pub avp_usage_monitoring_level : Criterion
avp_usage_monitoring_level = by_struct 10415 1068

abbrev pub avp_usage_monitoring_report : Criterion
avp_usage_monitoring_report = by_struct 10415 1069

abbrev pub avp_subscription_id : Criterion
avp_subscription_id = by_name BaseName.subscription_id

abbrev pub avp_subscription_id_type : Criterion
avp_subscription_id_type = by_name BaseName.subscription_id_type

abbrev pub avp_subscription_id_data : Criterion
avp_subscription_id_data = by_name BaseName.subscription_id_data

abbrev pub avp_apn_aggregate_max_bitrate_dl : Criterion
avp_apn_aggregate_max_bitrate_dl = by_struct 10415 1040

abbrev pub avp_apn_aggregate_max_bitrate_ul : Criterion
avp_apn_aggregate_max_bitrate_ul = by_struct 10415 1041

abbrev pub avp_cisco_bb_package_install : Criterion
avp_cisco_bb_package_install = by_struct 9 1000

abbrev pub avp_cisco_bb_rt_monitor_install : Criterion
avp_cisco_bb_rt_monitor_install = by_struct 9 1001

abbrev pub avp_cisco_bb_vlink_ustream_install : Criterion
avp_cisco_bb_vlink_ustream_install = by_struct 9 1002

abbrev pub avp_cisco_bb_vlink_dstream_install : Criterion
avp_cisco_bb_vlink_dstream_install = by_struct 9 1003
