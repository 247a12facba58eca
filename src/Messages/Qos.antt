-- ===== src/Messages/Qos.antt =====
-- Default-EPS-Bearer-QoS and QoS-Information of src/pcrf_server.cpp: pcrf_make_DefaultEPSBearerQoS,
-- pcrf_make_QoSInformation, pcrf_extract_DefaultEPSBearerQoS, pcrf_extract_QoSInformation.
pub mod RoundTrip
use pcrf.Common.{ℕ, true, false, ◌==◌, if◌then◌else◌}
use pcrf.Types.{OtlValue, to_otl}
use pcrf.Messages.{
  Header, Value, number, octets, group, Avp, avp, Avps, nil, cons, ◌then_add◌, one, number_of,
  number_unless_null,
}
use pcrf.Messages.Dictionary.{
  Headers, avp_default_eps_bearer_qos, avp_qos_class_identifier, avp_allocation_retention_priority,
  avp_priority_level, avp_preemption_capability, avp_preemption_vulnerability, avp_qos_information,
  avp_apn_aggregate_max_bitrate_dl, avp_apn_aggregate_max_bitrate_ul,
}

abbrev pub null_number : OtlValue ℕ
null_number = record { v = 0; is_null = true }

-- SAllocationRetentionPriority, SDefaultEPSBearerQoS, SQoSInformation.
pub record RetentionPriority : Type 0 where
  pub priority_level : OtlValue ℕ
  pub preemption_capability : OtlValue ℕ
  pub preemption_vulnerability : OtlValue ℕ

pub record DefaultBearer : Type 0 where
  pub qos_class_identifier : OtlValue ℕ
  pub arp : OtlValue RetentionPriority

pub record QosInformation : Type 0 where
  pub apn_aggregate_max_bitrate_dl : OtlValue ℕ
  pub apn_aggregate_max_bitrate_ul : OtlValue ℕ

-- What the default constructors leave.
abbrev pub new_arp : RetentionPriority
new_arp = record {
  priority_level = null_number;
  preemption_capability = null_number;
  preemption_vulnerability = null_number;
}

abbrev pub null_arp : OtlValue RetentionPriority
null_arp = record { v = new_arp; is_null = true }

abbrev pub new_bearer : DefaultBearer
new_bearer = record { qos_class_identifier = null_number; arp = null_arp }

abbrev pub null_bearer : OtlValue DefaultBearer
null_bearer = record { v = new_bearer; is_null = true }

abbrev pub new_qos_information : QosInformation
new_qos_information = record {
  apn_aggregate_max_bitrate_dl = null_number;
  apn_aggregate_max_bitrate_ul = null_number;
}

abbrev pub null_qos_information : OtlValue QosInformation
null_qos_information = record { v = new_qos_information; is_null = true }

-- The AVPs that are added to Allocation-Retention-Priority.
unfoldable pub make_arp : Headers → RetentionPriority → Avps
unfolding ◌then_add◌ number_unless_null
make_arp new a =
    number_unless_null (new avp_priority_level) a.priority_level
    then_add number_unless_null (new avp_preemption_capability) a.preemption_capability
    then_add number_unless_null (new avp_preemption_vulnerability) a.preemption_vulnerability

unfoldable pub make_bearer : Headers → DefaultBearer → Avps
unfolding make_arp one
make_bearer new q =
    number_unless_null (new avp_qos_class_identifier) q.qos_class_identifier
    then_add (if q.arp.is_null
        then nil
        else one (new avp_allocation_retention_priority) (group (make_arp new q.arp.v)))

-- pcrf_make_DefaultEPSBearerQoS.
unfoldable pub make_default_eps_bearer_qos : Headers → OtlValue DefaultBearer → Avps
unfolding make_bearer
make_default_eps_bearer_qos new q =
    if q.is_null then nil else one (new avp_default_eps_bearer_qos) (group (make_bearer new q.v))

unfoldable pub make_bitrates : Headers → QosInformation → Avps
unfolding ◌then_add◌ number_unless_null
make_bitrates new q =
    number_unless_null (new avp_apn_aggregate_max_bitrate_dl) q.apn_aggregate_max_bitrate_dl
    then_add number_unless_null (new avp_apn_aggregate_max_bitrate_ul)
        q.apn_aggregate_max_bitrate_ul

-- pcrf_make_QoSInformation.
unfoldable pub make_qos_information : Headers → OtlValue QosInformation → Avps
unfolding make_bitrates one
make_qos_information new q =
    if q.is_null then nil else one (new avp_qos_information) (group (make_bitrates new q.v))

abbrev set_arp : (RetentionPriority → RetentionPriority) → DefaultBearer → DefaultBearer
set_arp f q = record q { arp = record { v = f q.arp.v; is_null = q.arp.is_null } }

-- One round of pcrf_extract_DefaultEPSBearerQoS, where `inner` is what the call for the children of
-- the AVP leaves.
unfoldable extract_bearer_avp :
    Header → Value → (DefaultBearer → DefaultBearer) → DefaultBearer → DefaultBearer
unfolding number_of
extract_bearer_avp h x inner q =
    if h.vendor == 10415
    then (if h.code == 1028
        then record q { qos_class_identifier = to_otl (number_of x) }
        else if h.code == 1034
        then inner (record q { arp = record { v = q.arp.v; is_null = false } })
        else if h.code == 1046
        then set_arp (λ a. record a { priority_level = to_otl (number_of x) }) q
        else if h.code == 1047
        then set_arp (λ a. record a { preemption_capability = to_otl (number_of x) }) q
        else if h.code == 1048
        then set_arp (λ a. record a { preemption_vulnerability = to_otl (number_of x) }) q
        else q)
    else q

-- pcrf_extract_DefaultEPSBearerQoS, which calls itself for Allocation-Retention-Priority.
unfoldable mutual
  unfolding extract_bearer_avp

  pub extract_bearer : Avps → DefaultBearer → DefaultBearer
  extract_bearer nil q = q
  extract_bearer (cons a l) q = extract_bearer l (extract_bearer_one a q)

  pub extract_bearer_one : Avp → DefaultBearer → DefaultBearer
  extract_bearer_one (avp h x) q = extract_bearer_avp h x (extract_bearer_group x) q

  pub extract_bearer_group : Value → DefaultBearer → DefaultBearer
  extract_bearer_group (number n) q = q
  extract_bearer_group (octets s) q = q
  extract_bearer_group (group l) q = extract_bearer l q

-- pcrf_extract_QoSInformation.
unfoldable extract_bitrate : Header → Value → QosInformation → QosInformation
unfolding number_of
extract_bitrate h x q =
    if h.vendor == 10415
    then (if h.code == 1040
        then record q { apn_aggregate_max_bitrate_dl = to_otl (number_of x) }
        else if h.code == 1041
        then record q { apn_aggregate_max_bitrate_ul = to_otl (number_of x) }
        else q)
    else q

unfoldable pub extract_bitrates : Avps → QosInformation → QosInformation
unfolding extract_bitrate
extract_bitrates nil q = q
extract_bitrates (cons (avp h x) l) q = extract_bitrates l (extract_bitrate h x q)

unfoldable pub extract_qos_information : Avps → OtlValue QosInformation → OtlValue QosInformation
unfolding extract_bitrates
extract_qos_information l q = to_otl (extract_bitrates l q.v)
