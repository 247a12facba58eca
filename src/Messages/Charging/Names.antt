-- ===== src/Messages/Charging/Names.antt =====
-- Which rules pcrf_make_CRR and pcrf_make_CRI of src/pcrf_server.cpp name, and which they store.
use pcrf.Common.{
  ℕ, ◌≡◌, refl, ap, ◌∙◌, sym, Bool, true, false, Option, none, some, List, [], ◌∷◌, ◌++◌, ◌==◌,
  if◌then◌else◌, Bool-cases, inl, inr,
}
use mathlib.Core.Path.{fun_ext}
use mathlib.Core.List.{append_assoc, append-nil}
use pcrf.Common.Text.{Text}
use pcrf.Types.{AbonRule}
use pcrf.Messages.{Header, Value, Avp, avp, Avps, nil, cons, ◌then_add◌, octets_of}
use pcrf.Messages.Dictionary.{Headers, IsStandard, standard}
use pcrf.Messages.Charging.{
  is_group, set_crn, add_child, has_charging_rules, Removal, remove_rule, remove_rules, make_crr,
}

-- The rules that a group names, as a receiver reads them: whether by Charging-Rule-Base-Name, and
-- the name.
abbrev name_in : Header → Value → List (Bool × Text)
name_in h x =
    if h.code == 1004
    then (true, octets_of x) ∷ []
    else if h.code == 1005
    then (false, octets_of x) ∷ []
    else []

unfoldable names_in : Avps → List (Bool × Text)
names_in nil = []
names_in (cons (avp h x) l) = name_in h x ++ names_in l

unfoldable pub names_of : Option Avps → List (Bool × Text)
unfolding names_in
names_of none = []
names_of (some l) = names_in l

-- The rules that are no longer relevant.
unfoldable pub irrelevant : List AbonRule → List AbonRule
irrelevant [] = []
irrelevant (r ∷ rs) = if r.is_relevant then irrelevant rs else r ∷ irrelevant rs

unfoldable pub named : List AbonRule → List (Bool × Text)
named [] = []
named (r ∷ rs) = (is_group r, r.rule_name) ∷ named rs

unfoldable pub rule_names : List AbonRule → List Text
rule_names [] = []
rule_names (r ∷ rs) = r.rule_name ∷ rule_names rs

names_in-then_add :
    (l : Avps) (a : Avp) → names_in (l then_add cons a nil) ≡ names_in l ++ names_in (cons a nil)
unfolding names_in ◌then_add◌
names_in-then_add nil a = refl
names_in-then_add (cons (avp h x) l) a =
    ap (λ m. name_in h x ++ m) (names_in-then_add l a)
    ∙ sym (append_assoc (name_in h x) (names_in l) (names_in (cons a nil)))

names_in-set_crn :
    (grouped : Bool) (name : Text)
    → names_in (cons (set_crn standard grouped name) nil) ≡ (grouped, name) ∷ []
unfolding names_in set_crn standard octets_of
names_in-set_crn true name = refl
names_in-set_crn false name = refl

names_of-add_child :
    (m : Option Avps) (a : Avp) → names_of (add_child nil a m) ≡ names_of m ++ names_in (cons a nil)
unfolding names_of add_child ◌then_add◌
names_of-add_child none a = refl
names_of-add_child (some l) a = names_in-then_add l a

remove_rule-relevant :
    (dialect : ℕ) (r : AbonRule) (m : Removal)
    → r.is_relevant ≡ true
    → remove_rule standard dialect r m ≡ m
unfolding remove_rule
remove_rule-relevant dialect r m e = rw (remove_rule, e) refl

remove_rule-irrelevant :
    (dialect : ℕ) (r : AbonRule) (m : Removal)
    → has_charging_rules dialect ≡ true
    → r.is_relevant ≡ false
    → remove_rule standard dialect r m ≡ record {
      crr = add_child nil (set_crn standard (is_group r) r.rule_name) m.crr;
      closed = m.closed ++ r.rule_name ∷ [];
    }
unfolding remove_rule
remove_rule-irrelevant dialect r m core e = rw (remove_rule, e, core) refl

-- What a removal names and closes.
HasNamed : List (Bool × Text) → List Text → Removal → Type 0
HasNamed ns closed m = (names_of m.crr ≡ ns) × (m.closed ≡ closed)

-- The loop, from what is there.
remove_rules-named :
    (dialect : ℕ) (rs : List AbonRule) (ns : List (Bool × Text)) (closed : List Text) (m : Removal)
    → has_charging_rules dialect ≡ true
    → HasNamed ns closed m
    → HasNamed
        (ns ++ named (irrelevant rs))
        (closed ++ rule_names (irrelevant rs))
        (remove_rules standard dialect rs m)
unfolding remove_rules named irrelevant rule_names HasNamed
remove_rules-named dialect [] ns closed m core (h, k) =
    (h ∙ sym (append-nil ns), k ∙ sym (append-nil closed))
remove_rules-named dialect (r ∷ rs) ns closed m core (h, k) = elim (Bool-cases r.is_relevant) [
  | inl e ↦
      rw (remove_rules, remove_rule-relevant dialect r m e, irrelevant, e)
        (remove_rules-named dialect rs ns closed m core (h, k))
  | inr e ↦
      let grouped = is_group r in
      let name = r.rule_name in
      let rest =
        remove_rules-named dialect rs (ns ++ (grouped, name) ∷ []) (closed ++ name ∷ [])
          (record {
            crr = add_child nil (set_crn standard grouped name) m.crr;
            closed = m.closed ++ name ∷ [];
          })
          core
          (
            names_of-add_child m.crr (set_crn standard grouped name)
                ∙ ap (λ l. l ++ names_in (cons (set_crn standard grouped name) nil)) h
                ∙ ap (λ l. ns ++ l) (names_in-set_crn grouped name),
            ap (λ l. l ++ name ∷ []) k,
          ) in
      rw (remove_rules, remove_rule-irrelevant dialect r m core e, irrelevant, e)
        (
          rest.0 ∙ append_assoc ns ((grouped, name) ∷ []) (named (irrelevant rs)),
          rest.1 ∙ append_assoc closed (name ∷ []) (rule_names (irrelevant rs)),
        )
]

-- With the dictionary's codes, for a dialect that has charging rules: Charging-Rule-Remove names
-- the rules that are not relevant, in their order, each as a group or as a single rule, and no
-- others; these are the rules that are closed in the database.
pub make_crr-names :
    (new : Headers) (dialect : ℕ) (rs : List AbonRule)
    → IsStandard new
    → has_charging_rules dialect ≡ true
    → let m = make_crr new dialect rs in
      (names_of m.crr ≡ named (irrelevant rs)) × (m.closed ≡ rule_names (irrelevant rs))
unfolding make_crr names_of HasNamed
make_crr-names new dialect rs known core =
    rw (fun_ext known)
      (remove_rules-named dialect rs [] [] (record { crr = none; closed = [] }) core (refl, refl))
