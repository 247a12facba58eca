-- ===== src/Messages/Qos/RoundTrip.antt =====
-- What the extraction of src/pcrf_server.cpp reads from the AVPs for the quality of service that the
-- same file makes.
use pcrf.Common.{ℕ, ◌≡◌, refl, Bool, true, false, if◌then◌else◌}
use mathlib.Core.Path.{fun_ext}
use pcrf.Types.{OtlValue, to_otl}
use pcrf.Messages.Dictionary.{Headers, IsStandard, standard}
use pcrf.Messages.Qos.{
  RetentionPriority, DefaultBearer, QosInformation, null_number, null_arp, new_bearer,
  new_qos_information, make_arp, make_bearer, make_bitrates, extract_bearer, extract_bitrates,
}

-- A value as it is read: a null one is as the constructor leaves it.
unfoldable pub read_number : OtlValue ℕ → OtlValue ℕ
read_number o = if o.is_null then null_number else to_otl o.v

unfoldable pub read_arp : OtlValue RetentionPriority → OtlValue RetentionPriority
unfolding read_number
read_arp o =
    if o.is_null
    then null_arp
    else to_otl (record {
      priority_level = read_number o.v.priority_level;
      preemption_capability = read_number o.v.preemption_capability;
      preemption_vulnerability = read_number o.v.preemption_vulnerability;
    })

unfoldable pub read_bearer : DefaultBearer → DefaultBearer
unfolding read_arp
read_bearer q = record {
  qos_class_identifier = read_number q.qos_class_identifier;
  arp = read_arp q.arp;
}

unfoldable pub read_bitrates : QosInformation → QosInformation
unfolding read_number
read_bitrates q = record {
  apn_aggregate_max_bitrate_dl = read_number q.apn_aggregate_max_bitrate_dl;
  apn_aggregate_max_bitrate_ul = read_number q.apn_aggregate_max_bitrate_ul;
}

bitrates_standard :
    (dl ul : Bool) (m n : ℕ)
    → let q : QosInformation = record {
      apn_aggregate_max_bitrate_dl = record { v = m; is_null = dl };
      apn_aggregate_max_bitrate_ul = record { v = n; is_null = ul };
    } in
      extract_bitrates (make_bitrates standard q) new_qos_information ≡ read_bitrates q
unfolding extract_bitrates make_bitrates read_bitrates standard
bitrates_standard true true m n = refl
bitrates_standard true false m n = refl
bitrates_standard false true m n = refl
bitrates_standard false false m n = refl

pub extract_bitrates-make_bitrates :
    (new : Headers) (q : QosInformation)
    → IsStandard new
    → extract_bitrates (make_bitrates new q) new_qos_information ≡ read_bitrates q
extract_bitrates-make_bitrates new q known = rw (fun_ext known) (
    bitrates_standard q.apn_aggregate_max_bitrate_dl.is_null q.apn_aggregate_max_bitrate_ul.is_null
      q.apn_aggregate_max_bitrate_dl.v q.apn_aggregate_max_bitrate_ul.v)

-- The same for the AVPs of Allocation-Retention-Priority, read into any bearer with a new one.
arp_standard :
    (level capability vulnerability : Bool) (m n k : ℕ) (class : OtlValue ℕ)
    → let a : RetentionPriority = record {
      priority_level = record { v = m; is_null = level };
      preemption_capability = record { v = n; is_null = capability };
      preemption_vulnerability = record { v = k; is_null = vulnerability };
    } in
      extract_bearer
        (make_arp standard a)
        (record { qos_class_identifier = class; arp = record { v = null_arp.v; is_null = false } })
      ≡ record { qos_class_identifier = class; arp = read_arp (to_otl a) }
unfolding extract_bearer make_arp read_arp standard
arp_standard true true true m n k class = refl
arp_standard true true false m n k class = refl
arp_standard true false true m n k class = refl
arp_standard true false false m n k class = refl
arp_standard false true true m n k class = refl
arp_standard false true false m n k class = refl
arp_standard false false true m n k class = refl
arp_standard false false false m n k class = refl

extract_bearer-make_arp :
    (a : RetentionPriority) (class : OtlValue ℕ)
    → extract_bearer
        (make_arp standard a)
        (record { qos_class_identifier = class; arp = record { v = null_arp.v; is_null = false } })
      ≡ record { qos_class_identifier = class; arp = read_arp (to_otl a) }
extract_bearer-make_arp a class =
    arp_standard a.priority_level.is_null a.preemption_capability.is_null
      a.preemption_vulnerability.is_null a.priority_level.v a.preemption_capability.v
      a.preemption_vulnerability.v class

bearer_standard :
    (class arp : Bool) (m : ℕ) (a : RetentionPriority)
    → let q : DefaultBearer = record {
      qos_class_identifier = record { v = m; is_null = class };
      arp = record { v = a; is_null = arp };
    } in
      extract_bearer (make_bearer standard q) new_bearer ≡ read_bearer q
unfolding extract_bearer make_bearer read_bearer standard read_arp
bearer_standard true true m a = refl
bearer_standard false true m a = refl
bearer_standard true false m a = extract_bearer-make_arp a null_number
bearer_standard false false m a = extract_bearer-make_arp a (to_otl m)

pub extract_bearer-make_bearer :
    (new : Headers) (q : DefaultBearer)
    → IsStandard new
    → extract_bearer (make_bearer new q) new_bearer ≡ read_bearer q
extract_bearer-make_bearer new q known =
    rw (fun_ext known) (
      bearer_standard q.qos_class_identifier.is_null q.arp.is_null q.qos_class_identifier.v q.arp.v)
