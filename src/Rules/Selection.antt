-- ===== src/Rules/Selection.antt =====
-- What pcrf_server_select_notrelevant_active marks, and when pcrf_client_is_any_changes answers 1.
use pcrf.Common.{
  ◌≡◌, refl, Bool, true, false, not, ◌&&◌, ◌||◌, List, [], ◌∷◌, map, if◌then◌else◌, arith,
}
use pcrf.Common.Text.{Text, text_eq, text_eq_comm}
use pcrf.Common.Lists.{contains}
use pcrf.Types.{AbonRule}
use pcrf.RuleCache.{active_rule}
use pcrf.Rules.{
  match_active, select_notrelevant_active, any_to_remove, any_to_install, is_any_changes,
}

-- The names of rules.
abbrev pub names_of : List AbonRule → List Text
names_of [] = []
names_of (r ∷ rs) = r.rule_name ∷ names_of rs

-- Rules marked as active, and as relevant, where their name is among others.
unfoldable mark_active : List Text → List AbonRule → List AbonRule
mark_active l [] = []
mark_active l (r ∷ rs) =
    record r { is_active = r.is_active || contains r.rule_name l } ∷ mark_active l rs

unfoldable mark_relevant : List Text → List AbonRule → List AbonRule
mark_relevant l [] = []
mark_relevant l (a ∷ acts) =
    record a { is_relevant = a.is_relevant || contains a.rule_name l } ∷ mark_relevant l acts

-- Rules as the cache of rules gives them: relevant, and not active.
abbrev pub Fresh : List AbonRule → Type 0
Fresh [] = Unit {0}
Fresh (r ∷ rs) = (r.is_relevant ≡ true) × (r.is_active ≡ false) × Fresh rs

-- Whether each text of a list is in another.
unfoldable pub subset : List Text → List Text → Bool
subset [] l = true
subset (x ∷ xs) l = contains x l && subset xs l

or_assoc : (a b c : Bool) → ((a || b) || c) ≡ (a || (b || c))
or_assoc a b c = ground arith

or_false : (a : Bool) → (a || false) ≡ a
or_false a = ground arith

mark_relevant-nil : (acts : List AbonRule) → mark_relevant [] acts ≡ acts
unfolding mark_relevant contains
mark_relevant-nil [] = refl
mark_relevant-nil (a ∷ acts) = rw (mark_relevant-nil acts, or_false a.is_relevant) refl

mark_relevant-cons :
    (x : Text) (l : List Text) (acts : List AbonRule)
    → mark_relevant l (mark_relevant (x ∷ []) acts) ≡ mark_relevant (x ∷ l) acts
unfolding mark_relevant contains
mark_relevant-cons x l [] = refl
mark_relevant-cons x l (a ∷ acts) =
    rw
      (
        mark_relevant-cons x l acts,
        or_false (text_eq a.rule_name x),
        or_assoc a.is_relevant (text_eq a.rule_name x) (contains a.rule_name l),
      )
      refl

names_of-mark_relevant :
    (l : List Text) (acts : List AbonRule) → names_of (mark_relevant l acts) ≡ names_of acts
unfolding mark_relevant
names_of-mark_relevant l [] = refl
names_of-mark_relevant l (a ∷ acts) = rw (names_of-mark_relevant l acts) refl

match_active_lem :
    (r : AbonRule) (acts : List AbonRule)
    → match_active r acts ≡ (
      record r { is_active = r.is_active || contains r.rule_name (names_of acts) },
      mark_relevant (r.rule_name ∷ []) acts,
    )
unfolding match_active mark_relevant contains
match_active_lem r [] = rw (or_false r.is_active) refl
match_active_lem r (a ∷ acts) =
    rw
      (
        match_active_lem (record r { is_active = r.is_active || text_eq a.rule_name r.rule_name })
            acts,
        text_eq_comm a.rule_name r.rule_name,
        or_assoc r.is_active (text_eq r.rule_name a.rule_name)
            (contains r.rule_name (names_of acts)),
        or_false (text_eq r.rule_name a.rule_name),
      )
      refl

-- The nested loops mark a rule of the profile as active exactly where an active rule has its
-- name, and an active rule as relevant exactly where a rule of the profile has its name; marks
-- that were set before stay, and nothing else changes.
select_notrelevant_active_lem :
    (rs acts : List AbonRule)
    → select_notrelevant_active rs acts
      ≡ (mark_active (names_of acts) rs, mark_relevant (names_of rs) acts)
unfolding select_notrelevant_active mark_active
select_notrelevant_active_lem [] acts = rw (mark_relevant-nil acts) refl
select_notrelevant_active_lem (r ∷ rs) acts =
    rw
      (
        match_active_lem r acts,
        select_notrelevant_active_lem rs (mark_relevant (r.rule_name ∷ []) acts),
        names_of-mark_relevant (r.rule_name ∷ []) acts,
        mark_relevant-cons r.rule_name (names_of rs) acts,
      )
      refl

any_to_install-mark_active :
    (l : List Text) (rs : List AbonRule)
    → Fresh rs
    → any_to_install (mark_active l rs) ≡ not (subset (names_of rs) l)
unfolding any_to_install mark_active subset
any_to_install-mark_active l [] f = refl
any_to_install-mark_active l (r ∷ rs) f =
    rw (any_to_install-mark_active l rs f.2, f.0, f.1) (ground arith)

any_to_remove-mark_relevant :
    (l names : List Text)
    → any_to_remove (mark_relevant l (map active_rule names)) ≡ not (subset names l)
unfolding any_to_remove mark_relevant subset active_rule
any_to_remove-mark_relevant l [] = refl
any_to_remove-mark_relevant l (x ∷ names) = rw (any_to_remove-mark_relevant l names) (ground arith)

names_of-active_rule : (names : List Text) → names_of (map active_rule names) ≡ names
unfolding active_rule
names_of-active_rule [] = refl
names_of-active_rule (x ∷ names) = rw (names_of-active_rule names) refl

-- For the rules that the rule cache gives for a profile, and the rules that the session has by
-- the cache of session rules: after the selection, pcrf_client_is_any_changes answers 0 exactly
-- where each active name is in the profile and each name of the profile is active.
pub is_any_changes-select_notrelevant_active :
    (rs : List AbonRule) (names : List Text)
    → Fresh rs
    → is_any_changes
        (select_notrelevant_active rs (map active_rule names)).1
        (select_notrelevant_active rs (map active_rule names)).0
      ≡ (if subset names (names_of rs) && subset (names_of rs) names then 0 else 1)
unfolding is_any_changes
is_any_changes-select_notrelevant_active rs names f =
    rw
      (
        select_notrelevant_active_lem rs (map active_rule names),
        names_of-active_rule names,
        any_to_remove-mark_relevant (names_of rs) names,
        any_to_install-mark_active names rs f,
      )
      (ground arith)
