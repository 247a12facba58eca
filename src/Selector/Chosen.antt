-- ===== src/Selector/Chosen.antt =====
-- Which default rules src/data_proc/pcrf_defaultRuleSelector.cpp chooses.
use mathlib.Core.List.{append-nil, append_assoc}
use pcrf.Common.{
  ℕ, ◌≡◌, refl, ap, ◌∙◌, Bool, true, false, ◌&&◌, ◌||◌, Option, none, some, List, [], ◌∷◌, ◌++◌,
  if◌then◌else◌, arith, Bool-cases, Option-cases, inl, inr,
}
use pcrf.Common.Text.{Text, bytes, text_eq, text_eq_refl, text_eq_iff}
use pcrf.Common.Lists.{contains, contains-append, contains-one}
use pcrf.Common.Map.{Map, find, erase, assign, find-assign, find-erase}
use pcrf.Types.{UserEnvironment, OtlText, to_otl}
use pcrf.Selector.{
  Conditions, group, add_default_rule, check_parameter, dialect_name, is_selected,
  get_default_rule_list, add_all,
}

-- The conditions that calls have given for a name, and whether there was such a call.
unfoldable pub conditions_of : Text → List (Conditions × Text) → Conditions
conditions_of name [] = []
conditions_of name ((c, n) ∷ calls) =
    let rest = conditions_of name calls in if text_eq n name then c ++ rest else rest

unfoldable pub is_named : Text → List (Conditions × Text) → Bool
is_named name [] = false
is_named name ((c, n) ∷ calls) = text_eq n name || is_named name calls

-- A condition pair with this parameter and this value.
unfoldable has_pair : Text → Text → Conditions → Bool
has_pair param value [] = false
has_pair param value ((p, v) ∷ c) = (text_eq p param && text_eq value v) || has_pair param value c

unfoldable has_param : Text → Conditions → Bool
has_param param [] = false
has_param param ((p, v) ∷ c) = text_eq p param || has_param param c

-- Conditions accept a value: none is on the parameter, or one is that value.
unfoldable pub accepts : Text → OtlText → Conditions → Bool
unfolding has_param has_pair
accepts param value c =
    value.is_null || (if has_param param c then has_pair param value.v c else true)

contains-group :
    (param value : Text) (c : Conditions) → contains value (group param c) ≡ has_pair param value c
unfolding contains group has_pair
contains-group param value [] = refl
contains-group param value ((p, v) ∷ c) = ground (arith, contains-group param value c)

group-none : (param : Text) (c : Conditions) → has_param param c ≡ false → group param c ≡ []
unfolding group has_param
group-none param [] h = refl
group-none param ((p, v) ∷ c) h = ground (arith, group-none param c)

group-some :
    (param : Text) (c : Conditions)
    → has_param param c ≡ true
    → (v : Text) × (vs : List Text) × (group param c ≡ v ∷ vs)
unfolding group has_param
group-some param [] h = absurd (ground arith)
group-some param ((p, v) ∷ c) h = elim (Bool-cases (text_eq p param)) [
  | inl e ↦ (v, group param c, rw e refl)
  | inr e ↦ let (w, ws, f) = group-some param c (ground arith) in (w, ws, rw e f)
]

check_parameter_lem :
    (c : Conditions) (param value : Text)
    → check_parameter c param value ≡ (if has_param param c then has_pair param value c else true)
unfolding check_parameter
check_parameter_lem c param value = elim (Bool-cases (has_param param c)) [
  | inl e ↦
      let (v, vs, f) = group-some param c e in
      rw (check_parameter, e, ← contains-group param value c, f) refl
  | inr e ↦ rw (check_parameter, e, group-none param c e) refl
]

-- Each name of the map stands there once.
abbrev Once : {V : Type 0} → Map V → Type 0
Once [] = Unit {0}
Once ((k, v) ∷ m) = (find k m ≡ none) × Once m

module _ {V : Type 0} where
  Once-erase : (k : Text) (m : Map V) → Once m → Once (erase k m)
  unfolding erase
  Once-erase k [] h = tt
  Once-erase k ((j, v) ∷ m) (fresh, h) = elim (Bool-cases (text_eq j k)) [
    | inl e ↦ rw e (Once-erase k m h)
    | inr e ↦ rw e (ground (arith, find-erase k j m), Once-erase k m h)
  ]

  Once-assign : (k : Text) (v : V) (m : Map V) → Once m → Once (assign k v m)
  unfolding assign
  Once-assign k v m h = (ground (arith, find-erase k k m, text_eq_refl k), Once-erase k m h)

Once-add_default_rule :
    (c : Conditions) (n : Text) (m : Map Conditions) → Once m → Once (add_default_rule c n m)
unfolding add_default_rule
Once-add_default_rule c n m h = elim (Option-cases (find n m)) [
  | inl e ↦ rw (add_default_rule, e) (Once-assign n c m h)
  | inr (old, e) ↦ rw (add_default_rule, e) (Once-assign n (old ++ c) m h)
]

Once-add_all :
    (calls : List (Conditions × Text)) (m : Map Conditions) → Once m → Once (add_all calls m)
unfolding add_all
Once-add_all [] m h = h
Once-add_all ((c, n) ∷ calls) m h =
    Once-add_all calls (add_default_rule c n m) (Once-add_default_rule c n m h)

-- What the map has for a name after calls.
abbrev merged : Bool → Conditions → Option Conditions → Option Conditions
merged named c none = if named then some c else none
merged named c (some old) = some (old ++ c)

find-add_default_rule :
    (name n : Text) (c : Conditions) (m : Map Conditions)
    → find name (add_default_rule c n m)
      ≡ (if text_eq n name then merged true c (find name m) else find name m)
unfolding add_default_rule
find-add_default_rule name n c m = elim (Option-cases (find n m)) [
  | inl e ↦ rw (add_default_rule, e) (ground (arith, find-assign n name c m, text_eq_iff n name))
  | inr (old, e) ↦
      rw (add_default_rule, e) (ground (arith, find-assign n name (old ++ c) m, text_eq_iff n name))
]

merged-nothing : (o : Option Conditions) → o ≡ merged false [] o
merged-nothing none = refl
merged-nothing (some c) = rw (append-nil c) refl

merged_step :
    (here later : Bool) (c rest : Conditions) (o : Option Conditions)
    → merged later rest (if here then merged true c o else o)
      ≡ merged (here || later) (if here then c ++ rest else rest) o
merged_step true later c rest none = refl
merged_step true later c rest (some old) = ap some (append_assoc old c rest)
merged_step false later c rest none = refl
merged_step false later c rest (some old) = refl

find-add_all :
    (name : Text) (calls : List (Conditions × Text)) (m : Map Conditions)
    → find name (add_all calls m)
      ≡ merged (is_named name calls) (conditions_of name calls) (find name m)
unfolding add_all is_named conditions_of
find-add_all name [] m = merged-nothing (find name m)
find-add_all name ((c, n) ∷ calls) m =
    find-add_all name calls (add_default_rule c n m)
    ∙ ap (merged (is_named name calls) (conditions_of name calls))
        (find-add_default_rule name n c m)
    ∙ merged_step (text_eq n name) (is_named name calls) c (conditions_of name calls) (find name m)

contains-get_default_rule_list_from :
    (env : UserEnvironment) (dialect : ℕ) (name : Text) (m : Map Conditions) (names : List Text)
    → Once m
    → contains name (get_default_rule_list env dialect m names) ≡ (
        contains name names
        || elim (find name m) [ none ↦ false | some c ↦ is_selected env dialect c ])
unfolding get_default_rule_list find
contains-get_default_rule_list_from env dialect name [] names h = ground arith
contains-get_default_rule_list_from env dialect name ((k, c) ∷ m) names (fresh, h) = ground (
  arith,
  contains-get_default_rule_list_from env dialect name m names h,
  contains-get_default_rule_list_from env dialect name m (names ++ (k ∷ [])) h,
  contains-append name names (k ∷ []),
  contains-one name k,
  text_eq_iff k name,
  text_eq_iff name k,
)

accepts_lem :
    (c : Conditions) (param : Text) (value : OtlText)
    → (if value.is_null then true else check_parameter c param value.v) ≡ accepts param value c
unfolding accepts
accepts_lem c param value = ground (arith, check_parameter_lem c param value.v)

nested :
    (a b c d : Bool)
    → (if a then (if b then (if c then d else false) else false) else false)
      ≡ (a && (b && (c && d)))
nested true true true d = refl
nested true true false d = refl
nested true false c d = refl
nested false b c d = refl

or_if : (a b : Bool) → (if a then true else b) ≡ (a || b)
or_if true b = refl
or_if false b = refl

is_selected_lem :
    (env : UserEnvironment) (dialect : ℕ) (c : Conditions)
    → is_selected env dialect c ≡ (
        accepts (bytes "RAT_TYPE") env.rat_type c
        && (accepts (bytes "SGSN_ADDRESS") env.sgsn_address c
            && (accepts (bytes "IP_CAN_TYPE") env.ip_can_type c
                && (env.ip_can_type.is_null
                    || accepts (bytes "PEER_DIALECT") (to_otl (dialect_name dialect)) c))))
unfolding is_selected
is_selected_lem env dialect c =
    rw
      (
        is_selected,
        accepts_lem c (bytes "RAT_TYPE") env.rat_type,
        accepts_lem c (bytes "SGSN_ADDRESS") env.sgsn_address,
        accepts_lem c (bytes "IP_CAN_TYPE") env.ip_can_type,
      )
      (nested (accepts (bytes "RAT_TYPE") env.rat_type c)
          (accepts (bytes "SGSN_ADDRESS") env.sgsn_address c)
          (accepts (bytes "IP_CAN_TYPE") env.ip_can_type c)
          (if env.ip_can_type.is_null
            then true
            else check_parameter c (bytes "PEER_DIALECT") (dialect_name dialect))
        ∙ ap
            (λ x.
              accepts (bytes "RAT_TYPE") env.rat_type c
              && (accepts (bytes "SGSN_ADDRESS") env.sgsn_address c
                  && (accepts (bytes "IP_CAN_TYPE") env.ip_can_type c && x)))
            (or_if env.ip_can_type.is_null
                (check_parameter c (bytes "PEER_DIALECT") (dialect_name dialect))
              ∙ ap (λ y. env.ip_can_type.is_null || y)
                  (accepts_lem c (bytes "PEER_DIALECT") (to_otl (dialect_name dialect)))))

-- After any calls of pcrf_drs_add_defaultRule, a name is chosen exactly where there was a call for
-- it and the conditions of all calls for it accept the RAT type, the address of the SGSN and the
-- IP-CAN type, each where it is known, and the dialect, where the IP-CAN type is known.
pub contains-get_default_rule_list :
    (calls : List (Conditions × Text)) (env : UserEnvironment) (dialect : ℕ) (name : Text)
    → contains name (get_default_rule_list env dialect (add_all calls []) []) ≡ (
        is_named name calls
        && (accepts (bytes "RAT_TYPE") env.rat_type (conditions_of name calls)
            && (accepts (bytes "SGSN_ADDRESS") env.sgsn_address (conditions_of name calls)
                && (accepts (bytes "IP_CAN_TYPE") env.ip_can_type (conditions_of name calls)
                    && (env.ip_can_type.is_null
                        || accepts
                            (bytes "PEER_DIALECT")
                            (to_otl (dialect_name dialect))
                            (conditions_of name calls))))))
unfolding contains find
contains-get_default_rule_list calls env dialect name =
    contains-get_default_rule_list_from env dialect name (add_all calls []) []
      (Once-add_all calls [] tt)
    ∙ ap (λ o. elim o [ none ↦ false | some c ↦ is_selected env dialect c ])
        (find-add_all name calls [])
    ∙ elim (Bool-cases (is_named name calls)) [
      | inl e ↦ rw e (is_selected_lem env dialect (conditions_of name calls))
      | inr e ↦ rw e refl
    ]
