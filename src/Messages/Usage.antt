-- ===== src/Messages/Usage.antt =====
-- Usage-Monitoring-Information of src/pcrf_server.cpp: pcrf_make_UMI, pcrf_extract_UMI and
-- pcrf_extract_USU.
pub mod Quotas
use pcrf.Common.{ℕ, Bool, true, false, not, ◌&&◌, ◌||◌, List, [], ◌∷◌, ◌++◌, ◌==◌, if◌then◌else◌}
use pcrf.Common.Text.{Text}
use pcrf.Common.Map.{Map}
use pcrf.Types.{OtlText, SessionUsageInfo, to_otl}
use pcrf.Timed.{MonitoringInfo}
use pcrf.Messages.{
  Header, Value, number, octets, group, Avp, avp, Avps, nil, cons, ◌then_add◌, one, number_of,
  octets_of, children_of, number_unless_null,
}
use pcrf.Messages.Dictionary.{
  Headers, avp_usage_monitoring_information, avp_monitoring_key, avp_usage_monitoring_level,
  avp_usage_monitoring_report, avp_granted_service_unit, avp_cc_total_octets, avp_cc_input_octets,
  avp_cc_output_octets,
}

-- Whether a key has a quota.
unfoldable pub has_quota : MonitoringInfo → Bool
has_quota i =
    not i.dosage_total_octets.is_null
    || not i.dosage_output_octets.is_null
    || not i.dosage_input_octets.is_null

-- The AVPs of Granted-Service-Unit: the total, or else the octets of the two directions.
unfoldable pub make_granted : Headers → MonitoringInfo → Avps
unfolding number_unless_null one ◌then_add◌
make_granted new i =
    if not i.dosage_total_octets.is_null
    then one (new avp_cc_total_octets) (number i.dosage_total_octets.v)
    else number_unless_null (new avp_cc_input_octets) i.dosage_input_octets
      then_add number_unless_null (new avp_cc_output_octets) i.dosage_output_octets

-- The AVPs of Usage-Monitoring-Information for one key.
unfoldable pub make_usage : Headers → Bool → Text → MonitoringInfo → Avps
unfolding one ◌then_add◌ make_granted
make_usage new is_need_umr key i =
    one (new avp_monitoring_key) (octets key)
    then_add (if not i.is_reported then one (new avp_usage_monitoring_level) (number 1) else nil)
    then_add (if is_need_umr then one (new avp_usage_monitoring_report) (number 0) else nil)
    then_add one (new avp_granted_service_unit) (group (make_granted new i))

-- pcrf_make_UMI, over the keys in their order.
unfoldable pub make_umi : Headers → Bool → Map MonitoringInfo → Avps
unfolding has_quota make_usage
make_umi new is_need_umr [] = nil
make_umi new is_need_umr ((key, i) ∷ l) =
    let rest = make_umi new is_need_umr l in
    if has_quota i
    then cons
        (avp (new avp_usage_monitoring_information) (group (make_usage new is_need_umr key i))) rest
    else rest

-- pcrf_extract_USU.
unfoldable extract_usu_avp : Header → Value → SessionUsageInfo → SessionUsageInfo
unfolding number_of
extract_usu_avp h x u =
    if h.vendor == 0
    then (if h.code == 412
        then record u { input_octets = to_otl (number_of x) }
        else if h.code == 414
        then record u { output_octets = to_otl (number_of x) }
        else if h.code == 421
        then record u { total_octets = to_otl (number_of x) }
        else u)
    else u

unfoldable pub extract_usu : Avps → SessionUsageInfo → SessionUsageInfo
unfolding extract_usu_avp
extract_usu nil u = u
extract_usu (cons (avp h x) l) u = extract_usu l (extract_usu_avp h x u)

-- One round of pcrf_extract_UMI: the structure and `bDone`.
unfoldable extract_umi_avp : Header → Value → SessionUsageInfo × Bool → SessionUsageInfo × Bool
unfolding extract_usu octets_of children_of
extract_umi_avp h x (u, done) =
    if h.vendor == 10415
    then (if h.code == 1066
        then (record u { monitoring_key = to_otl (octets_of x) }, true)
        else (u, done))
    else if h.vendor == 0
    then (if h.code == 446 then (extract_usu (children_of x) u, done) else (u, done))
    else (u, done)

unfoldable extract_umi_loop : Avps → SessionUsageInfo × Bool → SessionUsageInfo × Bool
unfolding extract_umi_avp
extract_umi_loop nil s = s
extract_umi_loop (cons (avp h x) l) s = extract_umi_loop l (extract_umi_avp h x s)

abbrev pub new_usage : SessionUsageInfo
new_usage = record {
  monitoring_key = record { v = []; is_null = true };
  input_octets = record { v = 0; is_null = true };
  output_octets = record { v = 0; is_null = true };
  total_octets = record { v = 0; is_null = true };
}

-- pcrf_extract_UMI: the usage of the request.
unfoldable pub extract_umi : Avps → List SessionUsageInfo → List SessionUsageInfo
unfolding extract_umi_loop
extract_umi l us =
    let (u, done) = extract_umi_loop l (new_usage, false) in if done then us ++ u ∷ [] else us
