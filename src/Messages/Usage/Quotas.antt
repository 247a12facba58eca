-- ===== src/Messages/Usage/Quotas.antt =====
-- The quotas that pcrf_make_UMI of src/pcrf_server.cpp grants, as a peer reads them.
use pcrf.Common.{
  ℕ, ◌≡◌, refl, ap, ◌∙◌, Bool, true, false, ◌&&◌, ◌==◌, List, [], ◌∷◌, if◌then◌else◌, Bool-cases,
  inl, inr,
}
use mathlib.Core.Path.{fun_ext}
use pcrf.Common.Text.{Text}
use pcrf.Common.Map.{Map}
use pcrf.Types.{OtlValue, SessionUsageInfo, to_otl}
use pcrf.Timed.{MonitoringInfo}
use pcrf.Messages.{Header, Value, Avps, nil, cons, avp, group, octets_of, children_of}
use pcrf.Messages.Dictionary.{Headers, IsStandard, standard, avp_usage_monitoring_information}
use pcrf.Messages.Qos.RoundTrip.{read_number}
use pcrf.Messages.Usage.{has_quota, make_granted, make_usage, make_umi, extract_usu, new_usage}

-- Usage-Monitoring-Information as a peer reads it: the key, and the octets of Granted-Service-Unit,
-- whose AVPs are those of Used-Service-Unit.
unfoldable grant_avp : Header → Value → SessionUsageInfo → SessionUsageInfo
unfolding octets_of children_of
grant_avp h x u =
    if h.vendor == 10415 && h.code == 1066
    then record u { monitoring_key = to_otl (octets_of x) }
    else if h.vendor == 0 && h.code == 431
    then extract_usu (children_of x) u
    else u

unfoldable pub grant : Avps → SessionUsageInfo → SessionUsageInfo
unfolding grant_avp
grant nil u = u
grant (cons (avp h x) l) u = grant l (grant_avp h x u)

unfoldable pub grants : Avps → List SessionUsageInfo
unfolding children_of
grants nil = []
grants (cons (avp h x) l) =
    let rest = grants l in
    if h.vendor == 10415 && h.code == 1067 then grant (children_of x) new_usage ∷ rest else rest

-- The usage that a quota is read as: its total alone, or the octets of the two directions.
unfoldable pub read_quota : Text → MonitoringInfo → SessionUsageInfo
unfolding read_number
read_quota key i =
    if i.dosage_total_octets.is_null
    then record new_usage {
      monitoring_key = to_otl key;
      input_octets = read_number i.dosage_input_octets;
      output_octets = read_number i.dosage_output_octets;
    }
    else record new_usage {
      monitoring_key = to_otl key;
      total_octets = to_otl i.dosage_total_octets.v;
    }

-- Those of the keys that have one, in the order of the keys.
unfoldable pub read_quotas : Map MonitoringInfo → List SessionUsageInfo
unfolding read_quota
read_quotas [] = []
read_quotas ((key, i) ∷ l) =
    let rest = read_quotas l in if has_quota i then read_quota key i ∷ rest else rest

abbrev keyed : Text → SessionUsageInfo
keyed key = record new_usage { monitoring_key = to_otl key }

granted_read :
    (reported no_total no_input no_output : Bool) (total in_octets out : ℕ) (key : Text)
    → let i : MonitoringInfo = record {
      is_reported = reported;
      dosage_total_octets = record { v = total; is_null = no_total };
      dosage_input_octets = record { v = in_octets; is_null = no_input };
      dosage_output_octets = record { v = out; is_null = no_output };
    } in
      extract_usu (make_granted standard i) (keyed key) ≡ read_quota key i
unfolding extract_usu make_granted read_quota standard
granted_read reported false no_input no_output total in_octets out key = refl
granted_read reported true true true total in_octets out key = refl
granted_read reported true true false total in_octets out key = refl
granted_read reported true false true total in_octets out key = refl
granted_read reported true false false total in_octets out key = refl

grant-granted :
    (reported need : Bool) (total in_octets out : OtlValue ℕ) (key : Text)
    → let i : MonitoringInfo = record {
      is_reported = reported;
      dosage_total_octets = total;
      dosage_input_octets = in_octets;
      dosage_output_octets = out;
    } in
      grant (make_usage standard need key i) new_usage
      ≡ extract_usu (make_granted standard i) (keyed key)
unfolding grant make_usage standard
grant-granted true true total in_octets out key = refl
grant-granted true false total in_octets out key = refl
grant-granted false true total in_octets out key = refl
grant-granted false false total in_octets out key = refl

grant-make_usage :
    (need : Bool) (key : Text) (i : MonitoringInfo)
    → grant (make_usage standard need key i) new_usage ≡ read_quota key i
grant-make_usage need key i =
    grant-granted i.is_reported need i.dosage_total_octets i.dosage_input_octets
      i.dosage_output_octets key
    ∙ granted_read i.is_reported i.dosage_total_octets.is_null i.dosage_input_octets.is_null
        i.dosage_output_octets.is_null i.dosage_total_octets.v i.dosage_input_octets.v
        i.dosage_output_octets.v key

grants-cons :
    (need : Bool) (key : Text) (i : MonitoringInfo) (l : Avps)
    → grants (
        cons
          (avp (standard avp_usage_monitoring_information) (group (make_usage standard need key i)))
          l)
      ≡ grant (make_usage standard need key i) new_usage ∷ grants l
unfolding grants standard
grants-cons need key i l = refl

grants-standard :
    (need : Bool) (quotas : Map MonitoringInfo)
    → grants (make_umi standard need quotas) ≡ read_quotas quotas
unfolding make_umi read_quotas grants
grants-standard need [] = refl
grants-standard need ((key, i) ∷ l) = elim (Bool-cases (has_quota i)) [
  | inl e ↦ rw (e) (
      grants-cons need key i (make_umi standard need l)
      ∙ ap (λ u. u ∷ grants (make_umi standard need l)) (grant-make_usage need key i)
      ∙ ap (λ us. read_quota key i ∷ us) (grants-standard need l))
  | inr e ↦ rw (e) (grants-standard need l)
]

-- A peer that knows the codes of the standards reads, for each key with a quota and for no other,
-- in the order of the keys: the key with the total if that is given, and otherwise with the octets
-- of the two directions, as far as they are given; whatever the flags are.
pub grants-make_umi :
    (new : Headers) (need : Bool) (quotas : Map MonitoringInfo)
    → IsStandard new
    → grants (make_umi new need quotas) ≡ read_quotas quotas
grants-make_umi new need quotas known = rw (fun_ext known) (grants-standard need quotas)
