-- ===== src/Messages/Request.antt =====
-- The data of a credit control request in src/pcrf_server.cpp, with pcrf_extract_ChargingRuleReport.
use pcrf.Common.{ℕ, ◌+◌, ◌*◌, not, ◌&&◌, inl, inr, Option, List, [], ◌∷◌, ◌++◌, ◌==◌, if◌then◌else◌}
use pcrf.Common.Text.{Text}
use pcrf.Types.{
  OtlValue, OtlText, null_text, to_otl, SessionInfo, RequestInfo, UserEnvironment, new_session_info,
  new_request_info,
}
use pcrf.Messages.{Header, Value, avp, Avps, nil, cons, number_of, octets_of}
use pcrf.Messages.Qos.{
  DefaultBearer, QosInformation, null_number, null_bearer, null_qos_information,
}
use pcrf.Messages.Features.{SupportedFeature}
use pcrf.Messages.Address.{EnumDictionary, extract_avp_enum_val}

-- SSessionPolicyInfo.
pub record PolicyInfo : Type 0 where
  pub charging_rule_name : OtlText
  pub pcc_rule_status : OtlValue ℕ
  pub pcc_rule_status_enum : OtlText
  pub rule_failure_code : OtlValue ℕ
  pub rule_failure_code_enum : OtlText

abbrev new_policy : PolicyInfo
new_policy = record {
  charging_rule_name = null_text;
  pcc_rule_status = null_number;
  pcc_rule_status_enum = null_text;
  rule_failure_code = null_number;
  rule_failure_code_enum = null_text;
}

-- SMsgDataForDB: the session and the request, and the members of both that the other components do
-- not use.
pub record MessageData : Type 0 where
  pub info : SessionInfo
  pub req : RequestInfo
  pub origin_state_id : OtlValue ℕ
  pub framed_ip_number : ℕ
  pub term_cause : OtlText
  pub supported_features : List SupportedFeature
  pub cc_request_type_text : OtlText
  pub cc_request_number : OtlValue ℕ
  pub bearer_identifier : OtlText
  pub online_charging : OtlText
  pub offline_charging : OtlText
  pub qos_upgrade : OtlText
  pub max_requested_bandwidth_ul : OtlValue ℕ
  pub max_requested_bandwidth_dl : OtlValue ℕ
  pub qos_information : OtlValue QosInformation
  pub guaranteed_bitrate_ul : OtlValue ℕ
  pub guaranteed_bitrate_dl : OtlValue ℕ
  pub qos_negotiation : OtlText
  pub bearer_usage : OtlText
  pub bearer_operation : OtlText
  pub default_bearer : OtlValue DefaultBearer
  pub tethering_flag : OtlValue ℕ
  pub rule_reports : List PolicyInfo

-- What the constructors leave.
abbrev pub new_message_data : MessageData
new_message_data = record {
  info = new_session_info;
  req = new_request_info;
  origin_state_id = null_number;
  framed_ip_number = 4294967295;
  term_cause = null_text;
  supported_features = [];
  cc_request_type_text = null_text;
  cc_request_number = null_number;
  bearer_identifier = null_text;
  online_charging = null_text;
  offline_charging = null_text;
  qos_upgrade = null_text;
  max_requested_bandwidth_ul = null_number;
  max_requested_bandwidth_dl = null_number;
  qos_information = null_qos_information;
  guaranteed_bitrate_ul = null_number;
  guaranteed_bitrate_dl = null_number;
  qos_negotiation = null_text;
  bearer_usage = null_text;
  bearer_operation = null_text;
  default_bearer = null_bearer;
  tethering_flag = null_number;
  rule_reports = [];
}

-- What the library gives: the dictionary of enumerations, the address that
-- fd_dictfct_Address_interpret writes (the family, and the four bytes that stand at sin_addr), and
-- what uninitialised structures hold.
pub record Library : Type 0 where
  pub enums : EnumDictionary
  pub address : Value → Option (ℕ × Text)
  pub junk : Text

-- `v.insert( 0, ... )` and `set_non_null()`.
unfoldable pub insert_text : Value → OtlText → OtlText
unfolding octets_of
insert_text x o = to_otl (octets_of x ++ o.v)

abbrev pub set_info : (SessionInfo → SessionInfo) → MessageData → MessageData
set_info f d = record d { info = f d.info }

abbrev pub set_environment : (UserEnvironment → UserEnvironment) → MessageData → MessageData
set_environment f d = record d {
  req = record d.req { user_environment = f d.req.user_environment };
}

-- ntohl of the four bytes.
unfoldable pub network_number : Text → ℕ → ℕ
network_number (a ∷ (b ∷ (c ∷ (d ∷ [])))) old = ((a * 256 + b) * 256 + c) * 256 + d
network_number _ old = old

-- The name of a value, where the dictionary gives it.
unfoldable pub enum_text : Library → ℕ → Header → Value → OtlText → OtlText
enum_text lib size h x old = elim (extract_avp_enum_val lib.enums size h x) [
  | inl _ ↦ old
  | inr t ↦ to_otl t
]

-- pcrf_extract_ChargingRuleReport.
unfoldable extract_report_avp : Library → Header → Value → PolicyInfo → PolicyInfo
unfolding enum_text insert_text number_of
extract_report_avp lib h x p =
    if h.vendor == 10415
    then (if h.code == 1005
        then record p { charging_rule_name = insert_text x p.charging_rule_name }
        else if h.code == 1019
        then record p {
          pcc_rule_status = to_otl (number_of x);
          pcc_rule_status_enum = enum_text lib 65536 h x p.pcc_rule_status_enum;
        }
        else if h.code == 1031
        then record p {
          rule_failure_code = to_otl (number_of x);
          rule_failure_code_enum = enum_text lib 65536 h x p.rule_failure_code_enum;
        }
        else p)
    else p

unfoldable extract_report_loop : Library → Avps → PolicyInfo → PolicyInfo
unfolding extract_report_avp
extract_report_loop lib nil p = p
extract_report_loop lib (cons (avp h x) l) p =
    extract_report_loop lib l (extract_report_avp lib h x p)

unfoldable pub extract_rule_report : Library → Avps → List PolicyInfo → List PolicyInfo
unfolding extract_report_loop
extract_rule_report lib l ps =
    let p = extract_report_loop lib l new_policy in
    if not p.charging_rule_name.is_null && not p.rule_failure_code.is_null then ps ++ p ∷ [] else ps
