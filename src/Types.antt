-- ===== src/Types.antt =====
-- The value types and constants of src/app_pcrf.h, src/app_pcrf_header.h and
-- src/pcrf_session_cache.h that several components share.
use pcrf.Common.{ℕ, Bool, true, false, [], List}
use pcrf.Common.Text.{Text}
use pcrf.Common.Int.{ℤ, pos}

-- otl_value<T> of the OTL library: the value `v` and the null indicator. A default-constructed
-- value is null; assigning a T or set_non_null() clears the indicator.
pub record OtlValue {ℓ} (A : Type ℓ) : Type ℓ where
  pub v : A
  pub is_null : Bool

abbrev pub OtlText : Type 0
OtlText = OtlValue Text

abbrev pub null_text : OtlText
null_text = record { v = []; is_null = true }

abbrev pub to_otl {ℓ} : {A : Type ℓ} → A → OtlValue A
to_otl a = record { v = a; is_null = false }

-- errno.h on Linux.
abbrev pub einval : ℕ
einval = 22

abbrev pub enodata : ℕ
enodata = 61

abbrev enotconn : ℕ
enotconn = 107

-- Peer dialects.
abbrev pub gx_undef : ℕ
gx_undef = 0

abbrev pub gx_hw_ugw : ℕ
gx_hw_ugw = 1

abbrev pub gx_cisco_sce : ℕ
gx_cisco_sce = 2

abbrev pub gx_procera : ℕ
gx_procera = 3

abbrev pub gx_ericssn : ℕ
gx_ericssn = 4

abbrev pub rx_ims : ℕ
rx_ims = 10

-- CC-Request-Type.
abbrev pub initial_request : ℕ
initial_request = 1

abbrev pub update_request : ℕ
update_request = 2

abbrev pub termination_request : ℕ
termination_request = 3

pub record SubscriptionIdData : Type 0 where
  pub end_user_e164 : OtlText
  pub end_user_imsi : OtlText
  pub end_user_sipuri : OtlText
  pub end_user_nai : OtlText
  pub end_user_private : OtlText

-- SSessionInfo, less the members that no modelled operation touches (the origin state, the end of
-- the session, the supported features and the numeric address).
pub record SessionInfo : Type 0 where
  pub peer_dialect : ℕ
  pub session_id : Text
  pub subscriber_id : Text
  pub origin_host : OtlText
  pub origin_realm : OtlText
  pub subscription_data : SubscriptionIdData
  pub imei : OtlText
  pub framed_ip_address : OtlText
  pub called_station_id : OtlText

pub record UserLocation : Type 0 where
  pub cgi : OtlText
  pub rai : OtlText
  pub tai : OtlText
  pub ecgi : OtlText

-- SUserEnvironment; an int32_t is its 32-bit pattern.
pub record UserEnvironment : Type 0 where
  pub loaded : Bool
  pub sgsn_mccmnc : OtlText
  pub sgsn_address : OtlText
  pub sgsn_ipv6_address : OtlText
  pub rat_type : OtlText
  pub rat_type_code : ℕ
  pub ip_can_type : OtlText
  pub ip_can_type_code : ℕ
  pub usr_loc : UserLocation

pub record SessionUsageInfo : Type 0 where
  pub monitoring_key : OtlText
  pub input_octets : OtlValue ℕ
  pub output_octets : OtlValue ℕ
  pub total_octets : OtlValue ℕ

-- SRequestInfo, the members that the modelled operations read or write.
pub record RequestInfo : Type 0 where
  pub cc_request_type : ℕ
  pub user_environment : UserEnvironment
  pub usage_info : List SessionUsageInfo
  pub event_trigger : List ℕ

-- SDBAbonRule, the members that the modelled operations read or write. The precedence level is
-- an int32_t.
pub record AbonRule : Type 0 where
  pub is_active : Bool
  pub is_relevant : Bool
  pub rule_name : Text
  pub dynamic_rule_flag : OtlValue ℤ
  pub rule_group_flag : OtlValue ℤ
  pub precedence_level : OtlValue ℤ
  pub monit_key : List Text

abbrev null_int : OtlValue ℤ
null_int = record { v = pos 0; is_null = true }

-- SDBAbonRule().
abbrev pub new_abon_rule : AbonRule
new_abon_rule = record {
  is_active = false;
  is_relevant = false;
  rule_name = [];
  dynamic_rule_flag = null_int;
  rule_group_flag = null_int;
  precedence_level = null_int;
  monit_key = [];
}

-- SSessionCache, the cached record of one session.
pub record SessionCache : Type 0 where
  pub subscriber_id : OtlText
  pub framed_ip_addr : OtlText
  pub called_station_id : OtlText
  pub ip_can_type : OtlText
  pub sgsn_mccmnc : OtlText
  pub sgsn_ip_addr : OtlText
  pub rat_type : OtlText
  pub origin_host : OtlText
  pub origin_realm : OtlText
  pub cgi : OtlText
  pub ecgi : OtlText
  pub tai : OtlText
  pub imeisv : OtlText
  pub end_user_imsi : OtlText
  pub end_user_e164 : OtlText
  pub ip_can_type_code : ℕ
  pub rat_type_code : ℕ

-- What the default constructors leave.
abbrev no_subscription : SubscriptionIdData
no_subscription = record {
  end_user_e164 = null_text;
  end_user_imsi = null_text;
  end_user_sipuri = null_text;
  end_user_nai = null_text;
  end_user_private = null_text;
}

abbrev pub new_session_info : SessionInfo
new_session_info = record {
  peer_dialect = gx_undef;
  session_id = [];
  subscriber_id = [];
  origin_host = null_text;
  origin_realm = null_text;
  subscription_data = no_subscription;
  imei = null_text;
  framed_ip_address = null_text;
  called_station_id = null_text;
}

abbrev pub new_user_location : UserLocation
new_user_location = record { cgi = null_text; rai = null_text; tai = null_text; ecgi = null_text }

abbrev pub new_user_environment : UserEnvironment
new_user_environment = record {
  loaded = false;
  sgsn_mccmnc = null_text;
  sgsn_address = null_text;
  sgsn_ipv6_address = null_text;
  rat_type = null_text;
  rat_type_code = 0;
  ip_can_type = null_text;
  ip_can_type_code = 0;
  usr_loc = new_user_location;
}

abbrev pub new_request_info : RequestInfo
new_request_info = record {
  cc_request_type = 0;
  user_environment = new_user_environment;
  usage_info = [];
  event_trigger = [];
}

abbrev pub new_session_cache : SessionCache
new_session_cache = record {
  subscriber_id = null_text;
  framed_ip_addr = null_text;
  called_station_id = null_text;
  ip_can_type = null_text;
  sgsn_mccmnc = null_text;
  sgsn_ip_addr = null_text;
  rat_type = null_text;
  origin_host = null_text;
  origin_realm = null_text;
  cgi = null_text;
  ecgi = null_text;
  tai = null_text;
  imeisv = null_text;
  end_user_imsi = null_text;
  end_user_e164 = null_text;
  ip_can_type_code = 0;
  rat_type_code = 0;
}
