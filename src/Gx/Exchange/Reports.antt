-- ===== src/Gx/Exchange/Reports.antt =====
-- The event triggers of the whole answer of app_pcrf_ccr_cb of src/pcrf_server.cpp.
use pcrf.Common.{
  ℕ, ◌≡◌, refl, ap, ◌∙◌, Bool, true, false, ◌&&◌, ◌||◌, Option, some, List, [], ◌∷◌, ◌++◌, ◌==◌,
  if◌then◌else◌, Bool-cases, inl, inr,
}
use mathlib.Core.Path.{fun_ext}
use pcrf.Common.Map.{Map}
use pcrf.Types.{OtlText, AbonRule, gx_cisco_sce, gx_procera, initial_request, update_request}
use pcrf.Timed.{MonitoringInfo}
use pcrf.Messages.{Avps, nil, number, one, ◌then_add◌}
use pcrf.Messages.Dictionary.{
  Headers, IsStandard, standard, avp_charging_rule_install, avp_charging_rule_remove,
  avp_bearer_control_mode,
}
use pcrf.Messages.Features.{make_supported_features}
use pcrf.Messages.Identity.{make_subscription_id, procera_make_subscription_id}
use pcrf.Messages.Usage.{make_umi}
use pcrf.Messages.Rules.{RuleDefinition, RequestQos}
use pcrf.Messages.Charging.{
  Installation, has_charging_rules, cisco_avps, install_rule, install_rules, make_cri, make_crr,
}
use pcrf.Messages.Request.{MessageData}
use pcrf.Messages.Answer.{
  set_event_trigger, common_avps, bearer_avps, procera_avps, copied_avps, group_unless_none,
  initial_answer, accept_bearer, operate_rules, event_triggers,
}
use pcrf.Rules.Actions.{ActionSet, is_ipcan_dialect}
use pcrf.Gx.{Ccr}
use pcrf.Messages.Rules.Bandwidth.{stands_in}
use pcrf.Messages.Answer.Triggers.{any_changed, any_monitored, event_triggers-usage_report}
use pcrf.Gx.Exchange.{trigger_avps, answer_avps, rules_after, request_qos}
use pcrf.Gx.Exchange.Parts.{
  triggers_in, triggers_in-then_add, before, behind, triggers_in-features, triggers_in-bearer,
  triggers_in-identity, triggers_in-umi, triggers_in-install, triggers_in-remove, triggers_in-mode,
  one_of, triggers_in-cisco,
}

-- pcrf_make_CRI adds no trigger to the answer.
triggers_in-install_rule :
    (dialect : ℕ) (q : Option RequestQos) (r : RuleDefinition) (m : Installation)
    → triggers_in (install_rule standard dialect q r m).answer ≡ triggers_in m.answer
unfolding install_rule
triggers_in-install_rule dialect q r m = elim (Bool-cases (has_charging_rules dialect)) [
  | inl e ↦ elim (Bool-cases r.rule.is_active) [ inl f ↦ rw (e, f) refl | inr f ↦ rw (e, f) refl ]
  | inr e ↦ elim (Bool-cases (dialect == gx_cisco_sce)) [
    | inl f ↦ rw (e, f) (behind m.answer (cisco_avps standard r) (triggers_in-cisco r))
    | inr f ↦ rw (e, f) refl
  ]
]

triggers_in-install_rules :
    (dialect : ℕ) (q : Option RequestQos) (rs : List RuleDefinition) (m : Installation)
    → triggers_in (install_rules standard dialect q rs m).answer ≡ triggers_in m.answer
unfolding install_rules
triggers_in-install_rules dialect q [] m = refl
triggers_in-install_rules dialect q (r ∷ rs) m =
    triggers_in-install_rules dialect q rs (install_rule standard dialect q r m)
    ∙ triggers_in-install_rule dialect q r m

triggers_in-make_cri :
    (dialect : ℕ) (q : Option RequestQos) (rs : List RuleDefinition) (l : Avps)
    → triggers_in (make_cri standard dialect q rs l).answer ≡ triggers_in l
unfolding make_cri
triggers_in-make_cri dialect q rs l = triggers_in-install_rules dialect q rs _

-- The beginning of the answer, and the AVPs for a Procera.
triggers_in-common :
    (rescode : ℕ → Avps) (code state_id : ℕ) (d : MessageData)
    → triggers_in (rescode code) ≡ []
    → triggers_in (common_avps standard rescode code state_id d) ≡ []
unfolding common_avps triggers_in standard
triggers_in-common rescode code state_id d silent = before (rescode code) _ silent

triggers_in-procera :
    (is_procera : Bool) (imsi e164 : OtlText)
    → triggers_in (
        if is_procera
        then set_event_trigger standard 777 then_add procera_make_subscription_id standard imsi e164
        else nil)
      ≡ (if is_procera then 777 ∷ [] else [])
unfolding procera_make_subscription_id set_event_trigger triggers_in standard
triggers_in-procera false imsi e164 = refl
triggers_in-procera true imsi e164 =
    ap (λ ts. 777 ∷ ts)
      (before (make_subscription_id standard 1 imsi) (make_subscription_id standard 0 e164)
          (triggers_in-identity 1 imsi.is_null imsi)
        ∙ triggers_in-identity 0 e164.is_null e164)

triggers_in-copied :
    (d : MessageData)
    → triggers_in (copied_avps standard d)
      ≡ (if d.info.peer_dialect == gx_procera then 777 ∷ [] else [])
unfolding copied_avps procera_avps
triggers_in-copied d =
    before (make_supported_features standard d.supported_features) _
      (triggers_in-features d.supported_features)
    ∙ behind _ (bearer_avps standard d) (triggers_in-bearer d)
    ∙ triggers_in-procera (d.info.peer_dialect == gx_procera) d.info.subscription_data.end_user_imsi
        d.info.subscription_data.end_user_e164

triggers_in-initial :
    (d : MessageData) (q : Option RequestQos) (quotas : Map MonitoringInfo)
    (rules : List RuleDefinition) (l : Avps)
    → triggers_in l ≡ []
    → triggers_in (initial_answer standard d q quotas rules l)
      ≡ (if d.info.peer_dialect == gx_procera then 777 ∷ [] else [])
unfolding initial_answer
triggers_in-initial d q quotas rules l silent =
    let made = l then_add (copied_avps standard d then_add make_umi standard false quotas) in
    behind (make_cri standard d.info.peer_dialect q rules made).answer
      (group_unless_none (standard avp_charging_rule_install)
          (make_cri standard d.info.peer_dialect q rules made).cri
        then_add one (standard avp_bearer_control_mode) (number 2))
      (before _ (one (standard avp_bearer_control_mode) (number 2)) (triggers_in-install _)
        ∙ triggers_in-mode)
    ∙ triggers_in-make_cri d.info.peer_dialect q rules made
    ∙ before l (copied_avps standard d then_add make_umi standard false quotas) silent
    ∙ behind (copied_avps standard d) (make_umi standard false quotas)
        (triggers_in-umi false quotas)
    ∙ triggers_in-copied d

triggers_in-accept_bearer :
    (a : ActionSet) (d : MessageData) (l : Avps)
    → triggers_in l ≡ []
    → triggers_in (accept_bearer standard a d l) ≡ []
unfolding accept_bearer
triggers_in-accept_bearer a d l silent =
    one_of a.copy_defbearer (l then_add bearer_avps standard d) l
      (before l (bearer_avps standard d) silent ∙ triggers_in-bearer d) silent

triggers_in-operate_rules :
    (a : ActionSet) (d : MessageData) (q : Option RequestQos) (active : List AbonRule)
    (rules : List RuleDefinition) (l : Avps)
    → triggers_in l ≡ []
    → triggers_in (operate_rules standard a d q active rules l) ≡ []
unfolding operate_rules
triggers_in-operate_rules a d q active rules l silent =
    let crr =
      group_unless_none (standard avp_charging_rule_remove)
        (make_crr standard d.info.peer_dialect active).crr in
    let removed = l then_add crr in
    let m = make_cri standard d.info.peer_dialect q rules removed in
    let cri = group_unless_none (standard avp_charging_rule_install) m.cri in
    one_of a.operate_rule (m.answer then_add cri) l
      (behind m.answer cri (triggers_in-install m.cri)
        ∙ triggers_in-make_cri d.info.peer_dialect q rules removed
        ∙ behind l crr (triggers_in-remove (make_crr standard d.info.peer_dialect active).crr)
        ∙ silent)
      silent

triggers_in-update :
    (a : ActionSet) (d : MessageData) (q : Option RequestQos) (quotas : Map MonitoringInfo)
    (active : List AbonRule) (rules : List RuleDefinition) (l : Avps)
    → triggers_in l ≡ []
    → triggers_in (
        operate_rules standard a d q active rules (accept_bearer standard a d l)
        then_add make_umi standard false quotas)
      ≡ []
triggers_in-update a d q quotas active rules l silent =
    behind (operate_rules standard a d q active rules (accept_bearer standard a d l))
      (make_umi standard false quotas) (triggers_in-umi false quotas)
    ∙ triggers_in-operate_rules a d q active rules (accept_bearer standard a d l)
        (triggers_in-accept_bearer a d l silent)

triggers_in-trigger_avps : (ts : List ℕ) → triggers_in (trigger_avps standard ts) ≡ ts
unfolding trigger_avps triggers_in set_event_trigger standard
triggers_in-trigger_avps [] = refl
triggers_in-trigger_avps (t ∷ ts) = ap (λ us. t ∷ us) (triggers_in-trigger_avps ts)

-- What stands before the triggers that the rules ask for.
abbrev taken_over : ℕ → ℕ → List ℕ
taken_over type dialect =
    if type == initial_request then (if dialect == gx_procera then 777 ∷ [] else []) else []

triggers_in-body :
    (is_initial is_update : Bool) (initial update common : Avps) (ts : List ℕ)
    → triggers_in initial ≡ ts
    → triggers_in update ≡ []
    → triggers_in common ≡ []
    → triggers_in (if is_initial then initial else if is_update then update else common)
      ≡ (if is_initial then ts else [])
triggers_in-body true _ initial update common ts e f g = e
triggers_in-body false true initial update common ts e f g = f
triggers_in-body false false initial update common ts e f g = g

triggers_in-answer :
    (rescode : ℕ → Avps) (state_id : ℕ) (quotas : Map MonitoringInfo) (sessions : Map ℕ)
    (active : List AbonRule) (rules : List RuleDefinition) (d : MessageData) (c : Ccr)
    → triggers_in (rescode c.result_code) ≡ []
    → triggers_in (answer_avps standard rescode state_id quotas sessions active rules d c)
      ≡ taken_over c.req.cc_request_type c.info.peer_dialect
        ++ event_triggers c.req.cc_request_type c.action_set c.info.peer_dialect
            (rules_after sessions active rules d c)
unfolding answer_avps
triggers_in-answer rescode state_id quotas sessions active rules d c silent =
    let e = record d { info = c.info; req = c.req } in
    let q = some (request_qos e) in
    let common = common_avps standard rescode c.result_code state_id e in
    let quiet = triggers_in-common rescode c.result_code state_id e silent in
    let type = c.req.cc_request_type in
    let initial = initial_answer standard e q quotas rules common in
    let update =
      operate_rules standard c.action_set e q active rules
        (accept_bearer standard c.action_set e common)
      then_add make_umi standard false quotas in
    let ts =
      event_triggers type c.action_set c.info.peer_dialect
        (rules_after sessions active rules d c) in
    triggers_in-then_add
      (if type == initial_request
        then initial
        else if type == update_request
        then update
        else common)
      (trigger_avps standard ts)
    ∙ ap (λ us. us ++ triggers_in (trigger_avps standard ts))
        (triggers_in-body (type == initial_request) (type == update_request) initial update common _
          (triggers_in-initial e q quotas rules common quiet)
          (triggers_in-update c.action_set e q quotas active rules common quiet) quiet)
    ∙ ap (λ us. taken_over type c.info.peer_dialect ++ us) (triggers_in-trigger_avps ts)

stands_in-taken_over :
    (type dialect : ℕ) (ts : List ℕ)
    → stands_in 33 (taken_over type dialect ++ ts) ≡ stands_in 33 ts
stands_in-taken_over type dialect ts = elim (Bool-cases (type == initial_request)) [
  | inl e ↦ elim (Bool-cases (dialect == gx_procera)) [
    | inl f ↦ rw (e, f) refl
    | inr f ↦ rw (e, f) refl
  ]
  | inr e ↦ rw (e) refl
]

-- With the dictionary's codes, and where fd_msg_rescode_set puts no Event-Trigger: those of the answer
-- are 777, for the initial request of a Procera, and then those that the rules ask for, and no
-- others. The rules are those of the profile and, after an update whose actions include the store
-- of the tethering of a Procera, the one that the report of it appends. In particular the answer asks
-- for usage reports (33) exactly where rules are operated on, a relevant one of the rules has a
-- monitoring key, the request is an initial one, or an update for which one of the rules is to be
-- installed or removed, and the peer is an UGW, a Procera or an Ericsson PGW.
pub triggers_in-answer_avps :
    (new : Headers) (rescode : ℕ → Avps) (state_id : ℕ) (quotas : Map MonitoringInfo)
    (sessions : Map ℕ) (active : List AbonRule) (rules : List RuleDefinition) (d : MessageData)
    (c : Ccr)
    → IsStandard new
    → triggers_in (rescode c.result_code) ≡ []
    → let type = c.req.cc_request_type in
      let dialect = c.info.peer_dialect in
      let rs = rules_after sessions active rules d c in
      let triggers =
        triggers_in (answer_avps new rescode state_id quotas sessions active rules d c) in
      (triggers ≡ taken_over type dialect ++ event_triggers type c.action_set dialect rs)
      × (stands_in 33 triggers ≡ (
          c.action_set.operate_rule
          && any_monitored rs
          && (type == initial_request || type == update_request && any_changed rs)
          && (is_ipcan_dialect dialect || dialect == gx_procera)))
triggers_in-answer_avps new rescode state_id quotas sessions active rules d c known silent =
    rw (fun_ext known) (
      let e = triggers_in-answer rescode state_id quotas sessions active rules d c silent in
      let rs = rules_after sessions active rules d c in
      (
        e,
        ap (stands_in 33) e
            ∙ stands_in-taken_over c.req.cc_request_type c.info.peer_dialect
                (event_triggers c.req.cc_request_type c.action_set c.info.peer_dialect rs)
            ∙ event_triggers-usage_report c.req.cc_request_type c.action_set c.info.peer_dialect rs,
      ))
