-- ===== src/Messages/Extraction.antt =====
-- pcrf_extract_req_data of src/pcrf_server.cpp: one AVP of a credit control request after the other.
-- An exception of std::string and an access out of bounds are `none`.
pub mod Texts
pub mod RoundTrip
use pcrf.Common.{
  ℕ, Bool, true, false, not, Option, none, some, List, [], ◌∷◌, ◌++◌, ◌==◌, ltb, if◌then◌else◌,
}
use pcrf.Common.Text.{Text, bytes}
use pcrf.Common.Lists.{length, take, drop}
use pcrf.Types.{OtlValue, OtlText, to_otl, SessionInfo, RequestInfo, UserEnvironment, UserLocation}
use pcrf.Uli.{Parsed, parse_user_location, parse_rai, out_of_bounds, returned}
use pcrf.Messages.{Header, Value, Avp, avp, Avps, nil, cons, number_of, octets_of, children_of}
use pcrf.Messages.Qos.{extract_bearer, extract_qos_information}
use pcrf.Messages.Features.{extract_supported_feature}
use pcrf.Messages.Identity.{extract_subscription_id, extract_uei}
use pcrf.Messages.Usage.{extract_umi}
use pcrf.Messages.Address.{ip_addr_to_string}
use pcrf.Messages.Request.{
  MessageData, Library, insert_text, set_info, set_environment, network_number, enum_text,
  extract_rule_report,
}

-- The codes without a vendor.
unfoldable pub extract_base : Library → Header → Value → MessageData → MessageData
unfolding insert_text network_number enum_text extract_subscription_id extract_uei ip_addr_to_string
extract_base lib h x d =
    if h.code == 8
    then record (set_info
        (λ i. record i { framed_ip_address = ip_addr_to_string (octets_of x) i.framed_ip_address })
        d) { framed_ip_number = network_number (octets_of x) d.framed_ip_number }
    else if h.code == 30
    then set_info (λ i. record i { called_station_id = insert_text x i.called_station_id }) d
    else if h.code == 263
    then set_info (λ i. record i { session_id = octets_of x ++ i.session_id }) d
    else if h.code == 264
    then set_info (λ i. record i { origin_host = insert_text x i.origin_host }) d
    else if h.code == 278
    then record d { origin_state_id = to_otl (number_of x) }
    else if h.code == 296
    then set_info (λ i. record i { origin_realm = insert_text x i.origin_realm }) d
    else if h.code == 295
    then record d { term_cause = enum_text lib 256 h x d.term_cause }
    else if h.code == 416
    then record d {
      req = record d.req { cc_request_type = number_of x };
      cc_request_type_text = enum_text lib 256 h x d.cc_request_type_text;
    }
    else if h.code == 443
    then set_info
        (λ i. record i {
          subscription_data = extract_subscription_id (children_of x) i.subscription_data;
        })
        d
    else if h.code == 415
    then record d { cc_request_number = to_otl (number_of x) }
    else if h.code == 458
    then set_info (λ i. record i { imei = extract_uei (children_of x) i.imei }) d
    else d

-- 3GPP-SGSN-MCC-MNC: `insert( 3, 1, '-' )` throws where the text is shorter.
unfoldable pub store_mcc_mnc : Text → UserEnvironment → Option UserEnvironment
store_mcc_mnc t e =
    let v = t ++ e.sgsn_mccmnc.v in
    if ltb (length v) 3
    then none
    else some (record e { sgsn_mccmnc = to_otl (take 3 v ++ b'-' ∷ drop 3 v); loaded = true })

-- 3GPP-RAT-Type: the name of the first byte.
unfoldable rat_name : ℕ → Option Text
rat_name n =
    if n == 1
    then some (bytes "UTRAN")
    else if n == 2
    then some (bytes "GERAN")
    else if n == 3
    then some (bytes "WLAN")
    else if n == 4
    then some (bytes "GAN")
    else if n == 5
    then some (bytes "HSPA Evolution")
    else none

unfoldable store_rat : Text → UserEnvironment → UserEnvironment
unfolding rat_name
store_rat [] e = e
store_rat (n ∷ _) e = elim (rat_name n) [
  | none ↦ e
  | some t ↦ record e { rat_type = to_otl t; loaded = true }
]

unfoldable store_location : Parsed → UserEnvironment → Option UserEnvironment
store_location out_of_bounds e = none
store_location (returned _ l loaded) e = some (record e { usr_loc = l; loaded = loaded })

-- AN-GW-Address, where no address is known: AF_INET and AF_INET6 of Linux.
unfoldable store_gateway : Option (ℕ × Text) → UserEnvironment → UserEnvironment
unfolding ip_addr_to_string
store_gateway none e = e
store_gateway (some (family, addr)) e =
    if not e.sgsn_address.is_null
    then e
    else if family == 2
    then record e { sgsn_address = ip_addr_to_string addr e.sgsn_address }
    else if family == 10
    then record e { sgsn_ipv6_address = ip_addr_to_string addr e.sgsn_ipv6_address }
    else e

abbrev pub with_environment : MessageData → Option UserEnvironment → Option MessageData
with_environment d none = none
with_environment d (some e) = some (set_environment (λ _. e) d)

-- The AVPs of 3GPP on the environment of the user.
unfoldable pub extract_environment :
    Library → Header → Value → UserEnvironment → Option UserEnvironment
unfolding store_mcc_mnc store_rat store_location store_gateway enum_text parse_rai
extract_environment lib h x e =
    if h.code == 6
    then some (record e { sgsn_address = ip_addr_to_string (octets_of x) e.sgsn_address })
    else if h.code == 18
    then store_mcc_mnc (octets_of x) e
    else if h.code == 21
    then some (store_rat (octets_of x) e)
    else if h.code == 22
    then store_location (parse_user_location lib.junk (octets_of x) e.usr_loc e.loaded) e
    else if h.code == 909
    then some (record e {
      usr_loc = record e.usr_loc { rai = (parse_rai (octets_of x) e.usr_loc.rai).1 };
    })
    else if h.code == 1027
    then some (record e {
      ip_can_type_code = number_of x;
      loaded = true;
      ip_can_type = enum_text lib 256 h x e.ip_can_type;
    })
    else if h.code == 1032
    then some (record e {
      rat_type_code = number_of x;
      loaded = true;
      rat_type = enum_text lib 256 h x e.rat_type;
    })
    else if h.code == 1050
    then some (store_gateway (lib.address x) e)
    else some e

-- The other AVPs of 3GPP.
unfoldable pub extract_3gpp : Library → Header → Value → MessageData → MessageData
unfolding enum_text insert_text extract_supported_feature extract_qos_information
    extract_rule_report extract_bearer extract_umi
extract_3gpp lib h x d =
    if h.code == 515
    then record d { max_requested_bandwidth_dl = to_otl (number_of x) }
    else if h.code == 516
    then record d { max_requested_bandwidth_ul = to_otl (number_of x) }
    else if h.code == 628
    then record d {
      supported_features = extract_supported_feature (children_of x) d.supported_features;
    }
    else if h.code == 1000
    then record d { bearer_usage = enum_text lib 256 h x d.bearer_usage }
    else if h.code == 1006
    then record d { req = record d.req { event_trigger = d.req.event_trigger ++ number_of x ∷ [] } }
    else if h.code == 1009
    then record d { online_charging = enum_text lib 256 h x d.online_charging }
    else if h.code == 1008
    then record d { offline_charging = enum_text lib 256 h x d.offline_charging }
    else if h.code == 1016
    then record d { qos_information = extract_qos_information (children_of x) d.qos_information }
    else if h.code == 1018
    then record d { rule_reports = extract_rule_report lib (children_of x) d.rule_reports }
    else if h.code == 1020
    then (if d.bearer_identifier.is_null
        then record d { bearer_identifier = insert_text x d.bearer_identifier }
        else d)
    else if h.code == 1021
    then record d { bearer_operation = enum_text lib 256 h x d.bearer_operation }
    else if h.code == 1025
    then record d { guaranteed_bitrate_dl = to_otl (number_of x) }
    else if h.code == 1026
    then record d { guaranteed_bitrate_ul = to_otl (number_of x) }
    else if h.code == 1029
    then record d { qos_negotiation = enum_text lib 256 h x d.qos_negotiation }
    else if h.code == 1030
    then record d { qos_upgrade = enum_text lib 256 h x d.qos_upgrade }
    else if h.code == 1049
    then record d { default_bearer = to_otl (extract_bearer (children_of x) d.default_bearer.v) }
    else if h.code == 1067
    then record d {
      req = record d.req { usage_info = extract_umi (children_of x) d.req.usage_info };
    }
    else d

-- X-HW-Tethering-Status and Procera-Tethering-Flag.
abbrev pub set_tethering : ℕ → Header → Value → MessageData → MessageData
set_tethering code h x d =
    if h.code == code then record d { tethering_flag = to_otl (number_of x) } else d

-- The switch on the vendor and the code.
unfoldable pub extract_one : Library → Header → Value → MessageData → Option MessageData
unfolding extract_base extract_3gpp extract_environment number_of
extract_one lib h x d =
    let vendor = if h.flag_vendor then h.vendor else 0 in
    if vendor == 0
    then some (extract_base lib h x d)
    else if vendor == 10415
    then with_environment (extract_3gpp lib h x d)
        (extract_environment lib h x d.req.user_environment)
    else if vendor == 2011
    then some (set_tethering 2029 h x d)
    else if vendor == 15397
    then some (set_tethering 777 h x d)
    else some d

-- pcrf_extract_req_data: the AVPs of the message in their order.
unfoldable pub extract_req_data : Library → Avps → MessageData → Option MessageData
unfolding extract_one
extract_req_data lib nil d = some d
extract_req_data lib (cons (avp h x) l) d = elim (extract_one lib h x d) [
  | none ↦ none
  | some d' ↦ extract_req_data lib l d'
]
