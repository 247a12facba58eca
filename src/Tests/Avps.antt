-- ===== src/Tests/Avps.antt =====
-- The theorems on the AVPs of src/pcrf_server.cpp and of src/pcrf_avp_oper.cpp, with the codes of
-- the standards and a library that knows no names.
use pcrf.Common.{◌<◌, ◌≡◌, refl, true, false, none, some, [], ◌∷◌, inl, arith}
use pcrf.Common.Text.{bytes}
use pcrf.Common.Int.{pos}
use pcrf.Common.Lists.{length}
use pcrf.Types.{AbonRule, new_session_info, new_abon_rule, null_text, to_otl, gx_hw_ugw, gx_procera}
use pcrf.Timed.{MonitoringInfo, new_monitoring_info}
use pcrf.Messages.{Header, Avps, nil, cons, avp, number, octets}
use pcrf.Messages.Dictionary.{standard, avp_rating_group}
use pcrf.Messages.Qos.{DefaultBearer, null_number, null_arp, new_arp, null_bearer}
use pcrf.Messages.Qos.RoundTrip.{read_number, read_bearer, read_arp}
use pcrf.Messages.Identity.{is_empty_value}
use pcrf.Messages.Usage.{has_quota, make_umi, new_usage}
use pcrf.Messages.Usage.Quotas.{grants, read_quota, read_quotas, grants-make_umi}
use pcrf.Messages.Address.{ip_addr_to_string}
use pcrf.Messages.Address.Bounds.{read_dotted, read_dotted-ip_addr_to_string}
use pcrf.Messages.Rules.{RuleDefinition, RequestQos, max_ul, max_dl, guaranteed_ul, guaranteed_dl}
use pcrf.Messages.Rules.Bandwidth.{IsLeast, granted-IsLeast}
use pcrf.Messages.Charging.{make_crr, make_cri, has_charging_rules, is_true}
use pcrf.Messages.Charging.Names.{names_of, irrelevant, named, rule_names, make_crr-names}
use pcrf.Messages.Charging.Installed.{installed_of, inactive, definition_names, make_cri-names}
use pcrf.Messages.Request.{MessageData, Library, new_message_data}
use pcrf.Messages.Extraction.{extract_req_data}
use pcrf.Messages.Extraction.Texts.{
  session_ids, is_session_id, are_readable, is_readable, extract_req_data-session_id,
}
use pcrf.Messages.Answer.{copied_avps}
use pcrf.Messages.Answer.Copied.{
  read_default, read_qos, read_identity, read_info, read_request, extract_req_data-copied_avps,
}

-- A library without names, whose values are of no type that is known.
abbrev pub no_names : Library
no_names = record {
  enums = record { base_type = λ _. inl 2; enum_name = λ _ _. none; float_text = λ _. [] };
  address = λ _. none;
  junk = [];
}

-- The request of a Procera: one feature, a class without priorities, an IMSI and no MSISDN.
abbrev class : DefaultBearer
class = record { qos_class_identifier = to_otl 9; arp = null_arp }

abbrev procera_request : MessageData
procera_request = record new_message_data {
  info = record new_session_info {
    peer_dialect = gx_procera;
    subscription_data = record new_session_info.subscription_data {
      end_user_imsi = to_otl (bytes "25001");
    };
  };
  supported_features = record { vendor_id = 10415; feature_list_id = 1; feature_list = 3 } ∷ [];
  default_bearer = to_otl class;
}

extract_req_data-copied_avps_example :
    extract_req_data no_names (copied_avps standard procera_request) new_message_data
    ≡ some (record new_message_data {
      supported_features = record { vendor_id = 10415; feature_list_id = 1; feature_list = 3 } ∷ [];
      info = record new_session_info {
        subscription_data = record new_session_info.subscription_data {
          end_user_imsi = to_otl (bytes "25001");
        };
      };
      req = record new_message_data.req { event_trigger = 777 ∷ [] };
      default_bearer = to_otl class;
    })
unfolding read_default read_qos read_identity read_info read_request read_bearer read_arp
    read_number is_empty_value
extract_req_data-copied_avps_example =
    extract_req_data-copied_avps no_names standard procera_request (λ c. refl)

-- Two Session-Id AVPs with a number between them.
abbrev pub id_header : Header
id_header = record { code = 263; vendor = 0; flag_vendor = false }

abbrev twice : Avps
twice = cons (avp id_header (octets (bytes "b"))) (
    cons (avp (standard avp_rating_group) (number 5))
      (cons (avp id_header (octets (bytes "a"))) nil))

extract_req_data-session_id_example :
    (d : MessageData) × (extract_req_data no_names twice new_message_data ≡ some d)
    × (d.info.session_id ≡ bytes "ab")
unfolding session_ids is_session_id are_readable is_readable standard
extract_req_data-session_id_example =
    extract_req_data-session_id no_names twice new_message_data refl

-- A key with a total, one without a quota, and one with octets of one direction.
abbrev total : MonitoringInfo
total = record new_monitoring_info { dosage_total_octets = to_otl 1000 }

abbrev downlink : MonitoringInfo
downlink = record new_monitoring_info { dosage_output_octets = to_otl 70 }

grants-make_umi_example :
    grants (
      make_umi standard true
        ((bytes "a", total) ∷ ((bytes "b", new_monitoring_info) ∷ ((bytes "c", downlink) ∷ []))))
    ≡ record new_usage { monitoring_key = to_otl (bytes "a"); total_octets = to_otl 1000 }
      ∷ (record new_usage { monitoring_key = to_otl (bytes "c"); output_octets = to_otl 70 } ∷ [])
unfolding read_quotas read_quota has_quota read_number
grants-make_umi_example =
    grants-make_umi standard true
      ((bytes "a", total) ∷ ((bytes "b", new_monitoring_info) ∷ ((bytes "c", downlink) ∷ [])))
      (λ c. refl)

-- A request for 500 and an aggregate of 300.
abbrev asked : RequestQos
asked = record {
  ip_can_type_code = 5;
  bearer_identifier = null_text;
  max_requested_bandwidth_ul = to_otl 500;
  max_requested_bandwidth_dl = null_number;
  guaranteed_bitrate_ul = null_number;
  guaranteed_bitrate_dl = to_otl 500;
  qos_information = to_otl (record {
    apn_aggregate_max_bitrate_dl = to_otl 300;
    apn_aggregate_max_bitrate_ul = to_otl 600;
  });
  default_bearer = null_bearer;
}

granted-IsLeast_example :
    IsLeast (max_ul (some asked) 900) (900 ∷ (500 ∷ (600 ∷ [])))
    × IsLeast (max_dl (some asked) 900) (900 ∷ (300 ∷ []))
    × IsLeast (guaranteed_ul (some asked) 900) (900 ∷ (600 ∷ []))
    × IsLeast (guaranteed_dl (some asked) 900) (900 ∷ (500 ∷ []))
granted-IsLeast_example = granted-IsLeast asked 900 refl

-- A rule that is active and no longer relevant, and a group that is to be installed.
abbrev old_rule : AbonRule
old_rule = record new_abon_rule { is_active = true; rule_name = bytes "old" }

abbrev pub new_group : AbonRule
new_group = record new_abon_rule {
  is_relevant = true;
  rule_name = bytes "new";
  rule_group_flag = to_otl (pos 1);
  monit_key = bytes "a" ∷ [];
}

abbrev pub definition : AbonRule → RuleDefinition
definition r = record {
  rule = r;
  flow_status = null_number;
  rating_group_id = null_number;
  service_id = null_number;
  metering_method = null_number;
  reporting_level = null_number;
  online_charging = null_number;
  offline_charging = null_number;
  qos_class_identifier = null_number;
  arp = new_arp;
  max_requested_bandwidth_ul = null_number;
  max_requested_bandwidth_dl = null_number;
  guaranteed_bitrate_ul = null_number;
  guaranteed_bitrate_dl = null_number;
  redirect_address_type = null_number;
  redirect_server_address = null_text;
  flow_descr = [];
  sce_package_id = null_number;
  sce_real_time_monitor = null_number;
  sce_up_virtual_link = null_number;
  sce_down_virtual_link = null_number;
}

make_crr-names_example :
    let m = make_crr standard gx_hw_ugw (old_rule ∷ (new_group ∷ [])) in
    (names_of m.crr ≡ (false, bytes "old") ∷ []) × (m.closed ≡ bytes "old" ∷ [])
unfolding irrelevant named has_charging_rules is_true rule_names
make_crr-names_example =
    make_crr-names standard gx_hw_ugw (old_rule ∷ (new_group ∷ [])) (λ c. refl) refl

make_cri-names_example :
    let m =
      make_cri standard gx_hw_ugw
        (some asked)
        (definition old_rule ∷ (definition new_group ∷ []))
        nil in
    (installed_of m.cri ≡ bytes "new" ∷ [])
    × (m.inserted ≡ definition new_group ∷ [])
    × (m.answer ≡ nil)
unfolding inactive definition_names has_charging_rules
make_cri-names_example =
    make_cri-names standard gx_hw_ugw (some asked)
      (definition old_rule ∷ (definition new_group ∷ [])) nil (λ c. refl) refl

read_dotted-ip_addr_to_string_example :
    let stored = ip_addr_to_string (10 ∷ (0 ∷ (200 ∷ (1 ∷ [])))) null_text in
    (stored.is_null ≡ false)
    × (length stored.v < 16)
    × (read_dotted stored.v ≡ ((10 ∷ (0 ∷ (200 ∷ (1 ∷ [])))), []))
read_dotted-ip_addr_to_string_example =
    read_dotted-ip_addr_to_string 10 0 200 1 null_text (omega arith) (omega arith) (omega arith)
      (omega arith)
