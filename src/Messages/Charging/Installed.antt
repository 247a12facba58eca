-- ===== src/Messages/Charging/Installed.antt =====
-- Which rules pcrf_make_CRI of src/pcrf_server.cpp installs, and which it stores.
use pcrf.Common.{
  ℕ, ◌≡◌, refl, ap, ◌∙◌, sym, Bool, true, false, not, ◌&&◌, Option, none, some, List, [], ◌∷◌, ◌++◌,
  ◌==◌, arith, if◌then◌else◌, Bool-cases, inl, inr,
}
use mathlib.Core.Path.{fun_ext}
use mathlib.Core.List.{append_assoc, append-nil}
use pcrf.Common.Text.{Text}
use pcrf.Messages.{Header, Value, avp, Avps, nil, cons, ◌then_add◌, octets_of, children_of}
use pcrf.Messages.Dictionary.{Headers, IsStandard, standard}
use pcrf.Messages.Rules.{RuleDefinition, RequestQos}
use pcrf.Messages.Charging.{
  is_group, is_true, set_crn, make_crd, bearer, add_child, has_charging_rules, Installation,
  install_rule, install_rules, make_cri,
}

-- The Charging-Rule-Name of a definition.
unfoldable pub defined_name : Avps → Text
defined_name nil = []
defined_name (cons (avp h x) l) = if h.code == 1005 then octets_of x else defined_name l

-- The rules that Charging-Rule-Install names, as a receiver reads them: by a definition, by the name
-- of a group or by the name of a rule.
abbrev installed_by : Header → Value → List Text
installed_by h x =
    if h.code == 1003
    then defined_name (children_of x) ∷ []
    else if h.code == 1004
    then octets_of x ∷ []
    else if h.code == 1005
    then octets_of x ∷ []
    else []

unfoldable installed_in : Avps → List Text
installed_in nil = []
installed_in (cons (avp h x) l) = installed_by h x ++ installed_in l

unfoldable pub installed_of : Option Avps → List Text
unfolding installed_in
installed_of none = []
installed_of (some l) = installed_in l

-- The rules that are not active.
unfoldable pub inactive : List RuleDefinition → List RuleDefinition
inactive [] = []
inactive (r ∷ rs) = if r.rule.is_active then inactive rs else r ∷ inactive rs

unfoldable pub definition_names : List RuleDefinition → List Text
definition_names [] = []
definition_names (r ∷ rs) = r.rule.rule_name ∷ definition_names rs

installed_in-then_add :
    (l m : Avps) → installed_in (l then_add m) ≡ installed_in l ++ installed_in m
unfolding installed_in ◌then_add◌
installed_in-then_add nil m = refl
installed_in-then_add (cons (avp h x) l) m =
    ap (λ n. installed_by h x ++ n) (installed_in-then_add l m)
    ∙ sym (append_assoc (installed_by h x) (installed_in l) (installed_in m))

installed_in-set_crn :
    (grouped : Bool) (name : Text)
    → installed_in (cons (set_crn standard grouped name) nil) ≡ name ∷ []
unfolding installed_in set_crn standard octets_of
installed_in-set_crn true name = refl
installed_in-set_crn false name = refl

-- One rule is installed under its name, whether by a definition or not.
installed_in-make_crd :
    (q : Option RequestQos) (r : RuleDefinition)
    → installed_in (cons (make_crd standard q r) nil) ≡ r.rule.rule_name ∷ []
unfolding installed_in make_crd standard octets_of children_of defined_name set_crn
installed_in-make_crd q r = elim (Bool-cases (is_true r.rule.dynamic_rule_flag)) [
  | inl e ↦ rw (make_crd, e) refl
  | inr e ↦ rw (make_crd, e) (installed_in-set_crn (is_group r.rule) r.rule.rule_name)
]

installed_in-bearer : (q : Option RequestQos) → installed_in (bearer standard q) ≡ []
unfolding installed_in bearer standard
installed_in-bearer none = refl
installed_in-bearer (some q) =
    elim (Bool-cases (q.ip_can_type_code == 0 && not q.bearer_identifier.is_null)) [
      | inl e ↦ rw (bearer, e) refl
      | inr e ↦ rw (bearer, e) refl
    ]

installed_of-add_child :
    (q : Option RequestQos) (r : RuleDefinition) (m : Option Avps)
    → installed_of (add_child (bearer standard q) (make_crd standard q r) m)
      ≡ installed_of m ++ r.rule.rule_name ∷ []
unfolding installed_of add_child
installed_of-add_child q r none =
    installed_in-then_add (bearer standard q) (cons (make_crd standard q r) nil)
    ∙ ap (λ l. l ++ installed_in (cons (make_crd standard q r) nil)) (installed_in-bearer q)
    ∙ installed_in-make_crd q r
installed_of-add_child q r (some l) =
    installed_in-then_add l (cons (make_crd standard q r) nil)
    ∙ ap (λ n. installed_in l ++ n) (installed_in-make_crd q r)

install_rule-active :
    (dialect : ℕ) (q : Option RequestQos) (r : RuleDefinition) (m : Installation)
    → has_charging_rules dialect ≡ true
    → r.rule.is_active ≡ true
    → install_rule standard dialect q r m ≡ m
unfolding install_rule
install_rule-active dialect q r m core e = rw (install_rule, core, e) refl

install_rule-inactive :
    (dialect : ℕ) (q : Option RequestQos) (r : RuleDefinition) (m : Installation)
    → has_charging_rules dialect ≡ true
    → r.rule.is_active ≡ false
    → install_rule standard dialect q r m ≡ record m {
      cri = add_child (bearer standard q) (make_crd standard q r) m.cri;
      inserted = m.inserted ++ r ∷ [];
    }
unfolding install_rule
install_rule-inactive dialect q r m core e = rw (install_rule, core, e) refl

inactive-active :
    (r : RuleDefinition) (rs : List RuleDefinition)
    → r.rule.is_active ≡ true
    → inactive (r ∷ rs) ≡ inactive rs
unfolding inactive
inactive-active r rs e = ground arith

inactive-inactive :
    (r : RuleDefinition) (rs : List RuleDefinition)
    → r.rule.is_active ≡ false
    → inactive (r ∷ rs) ≡ r ∷ inactive rs
unfolding inactive
inactive-inactive r rs e = ground arith

HasInstalled : List Text → List RuleDefinition → Avps → Installation → Type 0
HasInstalled ns rs answer m = (installed_of m.cri ≡ ns) × (m.inserted ≡ rs) × (m.answer ≡ answer)

install_rules-installed :
    (dialect : ℕ) (q : Option RequestQos) (rs : List RuleDefinition) (ns : List Text)
    (stored : List RuleDefinition) (answer : Avps) (m : Installation)
    → has_charging_rules dialect ≡ true
    → HasInstalled ns stored answer m
    → HasInstalled
        (ns ++ definition_names (inactive rs))
        (stored ++ inactive rs)
        answer
        (install_rules standard dialect q rs m)
unfolding install_rules definition_names HasInstalled
install_rules-installed dialect q [] ns stored answer m core (h, k, a) =
    unfold inactive in (h ∙ sym (append-nil ns), k ∙ sym (append-nil stored), a)
install_rules-installed dialect q (r ∷ rs) ns stored answer m core (h, k, a) =
    elim (Bool-cases r.rule.is_active) [
      | inl e ↦
          rw (install_rules, install_rule-active dialect q r m core e, inactive-active r rs e)
            (install_rules-installed dialect q rs ns stored answer m core (h, k, a))
      | inr e ↦
          let name = r.rule.rule_name in
          let rest =
            install_rules-installed dialect q rs (ns ++ name ∷ []) (stored ++ r ∷ []) answer
              (record m {
                cri = add_child (bearer standard q) (make_crd standard q r) m.cri;
                inserted = m.inserted ++ r ∷ [];
              })
              core
              (
                installed_of-add_child q r m.cri ∙ ap (λ l. l ++ name ∷ []) h,
                ap (λ l. l ++ r ∷ []) k,
                a,
              ) in
          rw (install_rules, install_rule-inactive dialect q r m core e, inactive-inactive r rs e)
            (
              rest.0 ∙ append_assoc ns (name ∷ []) (definition_names (inactive rs)),
              rest.1 ∙ append_assoc stored (r ∷ []) (inactive rs),
              rest.2,
            )
    ]

-- With the dictionary's codes, for a dialect that has charging rules: Charging-Rule-Install names
-- the rules that are not active, in their order, and no others; these are the rules that are
-- stored in the database; and the answer gets no further AVP.
pub make_cri-names :
    (new : Headers) (dialect : ℕ) (q : Option RequestQos) (rs : List RuleDefinition) (answer : Avps)
    → IsStandard new
    → has_charging_rules dialect ≡ true
    → let m = make_cri new dialect q rs answer in
      (installed_of m.cri ≡ definition_names (inactive rs))
      × (m.inserted ≡ inactive rs)
      × (m.answer ≡ answer)
unfolding make_cri installed_of HasInstalled
make_cri-names new dialect q rs answer known core = rw (fun_ext known) (
    install_rules-installed dialect q rs [] [] answer
      (record { cri = none; answer = answer; inserted = [] }) core (refl, refl, refl))
