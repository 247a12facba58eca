-- ===== src/Gx/Exchange/Parts.antt =====
-- The parts of the answer of app_pcrf_ccr_cb of src/pcrf_server.cpp that have no Event-Trigger.
use pcrf.Common.{
  ℕ, ◌≡◌, refl, ap, ◌∙◌, Bool, true, false, ◌&&◌, Option, none, some, List, [], ◌∷◌, ◌++◌, ◌==◌,
  arith, if◌then◌else◌, Bool-cases, inl, inr,
}
use mathlib.Core.List.{append-nil}
use pcrf.Common.Map.{Map}
use pcrf.Types.{OtlText}
use pcrf.Timed.{MonitoringInfo}
use pcrf.Messages.{Avps, nil, cons, avp, number, one, number_of, ◌then_add◌, number_unless_null}
use pcrf.Messages.Dictionary.{
  standard, by_struct, avp_charging_rule_install, avp_charging_rule_remove, avp_bearer_control_mode,
}
use pcrf.Messages.Qos.{
  DefaultBearer, QosInformation, make_default_eps_bearer_qos, make_qos_information,
}
use pcrf.Messages.Features.{SupportedFeature, make_supported_features}
use pcrf.Messages.Identity.{make_subscription_id}
use pcrf.Messages.Usage.{has_quota, make_umi}
use pcrf.Messages.Rules.{RuleDefinition}
use pcrf.Messages.Charging.{cisco_avps}
use pcrf.Messages.Request.{MessageData}
use pcrf.Messages.Answer.{bearer_avps, group_unless_none}

-- The numbers of the Event-Trigger AVPs.
unfoldable pub triggers_in : Avps → List ℕ
unfolding number_of
triggers_in nil = []
triggers_in (cons (avp h x) l) =
    let rest = triggers_in l in
    if h.vendor == 10415 && h.code == 1006 then number_of x ∷ rest else rest

pub triggers_in-then_add :
    (l m : Avps) → triggers_in (l then_add m) ≡ triggers_in l ++ triggers_in m
unfolding triggers_in ◌then_add◌
triggers_in-then_add nil m = refl
triggers_in-then_add (cons (avp h x) l) m = ground (arith, triggers_in-then_add l m)

-- AVPs without a trigger, in front and behind.
pub before : (l m : Avps) → triggers_in l ≡ [] → triggers_in (l then_add m) ≡ triggers_in m
before l m e = triggers_in-then_add l m ∙ ap (λ ts. ts ++ triggers_in m) e

pub behind : (l m : Avps) → triggers_in m ≡ [] → triggers_in (l then_add m) ≡ triggers_in l
behind l m e =
    triggers_in-then_add l m ∙ ap (λ ts. triggers_in l ++ ts) e ∙ append-nil (triggers_in l)

-- The parts of an answer.
pub triggers_in-features :
    (fs : List SupportedFeature) → triggers_in (make_supported_features standard fs) ≡ []
unfolding triggers_in make_supported_features standard
triggers_in-features [] = refl
triggers_in-features (f ∷ fs) = triggers_in-features fs

triggers_in-default :
    (is_null : Bool) (q : DefaultBearer)
    → triggers_in (make_default_eps_bearer_qos standard (record { v = q; is_null = is_null })) ≡ []
unfolding triggers_in make_default_eps_bearer_qos standard
triggers_in-default true q = refl
triggers_in-default false q = refl

triggers_in-qos :
    (is_null : Bool) (q : QosInformation)
    → triggers_in (make_qos_information standard (record { v = q; is_null = is_null })) ≡ []
unfolding triggers_in make_qos_information standard
triggers_in-qos true q = refl
triggers_in-qos false q = refl

pub triggers_in-bearer : (d : MessageData) → triggers_in (bearer_avps standard d) ≡ []
unfolding bearer_avps
triggers_in-bearer d =
    before _ (make_qos_information standard d.qos_information)
      (triggers_in-default d.default_bearer.is_null d.default_bearer.v)
    ∙ triggers_in-qos d.qos_information.is_null d.qos_information.v

pub triggers_in-identity :
    (type : ℕ) (is_null : Bool) (t : OtlText)
    → triggers_in (make_subscription_id standard type (record { v = t.v; is_null = is_null })) ≡ []
unfolding triggers_in make_subscription_id standard
triggers_in-identity type true t = refl
triggers_in-identity type false t = refl

pub triggers_in-umi :
    (need : Bool) (quotas : Map MonitoringInfo) → triggers_in (make_umi standard need quotas) ≡ []
unfolding make_umi triggers_in standard
triggers_in-umi need [] = refl
triggers_in-umi need ((key, i) ∷ l) = elim (Bool-cases (has_quota i)) [
  | inl e ↦ rw (e) (triggers_in-umi need l)
  | inr e ↦ rw (e) (triggers_in-umi need l)
]

pub triggers_in-install :
    (o : Option Avps) → triggers_in (group_unless_none (standard avp_charging_rule_install) o) ≡ []
unfolding group_unless_none triggers_in standard
triggers_in-install none = refl
triggers_in-install (some l) = refl

pub triggers_in-remove :
    (o : Option Avps) → triggers_in (group_unless_none (standard avp_charging_rule_remove) o) ≡ []
unfolding group_unless_none triggers_in standard
triggers_in-remove none = refl
triggers_in-remove (some l) = refl

pub triggers_in-mode : triggers_in (one (standard avp_bearer_control_mode) (number 2)) ≡ []
unfolding triggers_in standard one
triggers_in-mode = refl

pub one_of :
    (b : Bool) (l m : Avps)
    → triggers_in l ≡ []
    → triggers_in m ≡ []
    → triggers_in (if b then l else m) ≡ []
one_of true l m e f = e
one_of false l m e f = f

triggers_in-number :
    (code : ℕ) (is_null : Bool) (n : ℕ)
    → triggers_in
        (number_unless_null (standard (by_struct 9 code)) (record { v = n; is_null = is_null }))
      ≡ []
unfolding triggers_in standard number_unless_null
triggers_in-number code true n = refl
triggers_in-number code false n = refl

pub triggers_in-cisco : (r : RuleDefinition) → triggers_in (cisco_avps standard r) ≡ []
unfolding cisco_avps
triggers_in-cisco r =
    before _
      (number_unless_null (standard (by_struct 9 1001)) r.sce_real_time_monitor
        then_add number_unless_null (standard (by_struct 9 1002)) r.sce_up_virtual_link
        then_add number_unless_null (standard (by_struct 9 1003)) r.sce_down_virtual_link)
      (triggers_in-number _ r.sce_package_id.is_null r.sce_package_id.v)
    ∙ before _
        (number_unless_null (standard (by_struct 9 1002)) r.sce_up_virtual_link
          then_add number_unless_null (standard (by_struct 9 1003)) r.sce_down_virtual_link)
        (triggers_in-number 1001 r.sce_real_time_monitor.is_null r.sce_real_time_monitor.v)
    ∙ before _ (number_unless_null (standard (by_struct 9 1003)) r.sce_down_virtual_link)
        (triggers_in-number 1002 r.sce_up_virtual_link.is_null r.sce_up_virtual_link.v)
    ∙ triggers_in-number 1003 r.sce_down_virtual_link.is_null r.sce_down_virtual_link.v
