-- ===== src/RuleCache/Contents.antt =====
-- What src/pcrf_session_rule_cache.cpp holds for each session after its operations.
use mathlib.Core.List.{append-nil}
use pcrf.Common.{
  ℕ, ◌≡◌, refl, false, not, ◌&&◌, ◌||◌, none, some, List, [], ◌∷◌, ◌++◌, map, if◌then◌else◌, arith,
  Option-cases, inl, inr,
}
use pcrf.Common.Text.{Text, text_eq, text_eq_iff, text_eq_refl}
use pcrf.Common.Lists.{erase_all, contains, contains-erase_all}
use pcrf.Common.Map.{find, find-erase, find-assign, find-insert}
use pcrf.Types.{AbonRule, enodata}
use pcrf.RuleCache.{
  SessRules, active_rule, get_rules, insert_rule_local, remove_sess_local, remove_rule_local,
  insert_rule, remove_rule, is_empty,
}

-- The abstract view: the names of the rules of each session, in the order of installation.
unfoldable pub rules_of : Text → SessRules → List Text
rules_of sid m = elim (find sid m) [ none ↦ [] | some l ↦ l ]

abbrev code_of : List Text → ℕ
code_of [] = enodata
code_of (x ∷ xs) = 0

-- pcrf_session_rule_cache_get appends an active rule for each name of the session, and returns
-- ENODATA exactly where it has none.
pub get_rules-rules_of :
    (sid : Text) (out : List AbonRule) (m : SessRules)
    → get_rules sid out m ≡ (code_of (rules_of sid m), out ++ map active_rule (rules_of sid m))
unfolding get_rules rules_of
get_rules-rules_of sid out m = elim (Option-cases (find sid m)) [
  | inl e ↦ rw (get_rules, rules_of, e, append-nil out) refl
  | inr ([], e) ↦ rw (get_rules, rules_of, e, append-nil out) refl
  | inr (x ∷ xs, e) ↦ rw (get_rules, rules_of, e) refl
]

rules_of-insert_rule_local :
    (sid name j : Text) (m : SessRules)
    → rules_of j (insert_rule_local sid name m)
      ≡ (if text_eq sid j then rules_of sid m ++ name ∷ [] else rules_of j m)
unfolding rules_of insert_rule_local
rules_of-insert_rule_local sid name j m = elim (Option-cases (find sid m)) [
  | inl e ↦ ground (arith, e, find-insert sid j (name ∷ []) m e)
  | inr (l, e) ↦ ground (arith, e, find-assign sid j (l ++ name ∷ []) m)
]

rules_of-remove_rule_local :
    (sid name j : Text) (m : SessRules)
    → rules_of j (remove_rule_local sid name m)
      ≡ (if text_eq sid j then erase_all name (rules_of sid m) else rules_of j m)
unfolding rules_of remove_rule_local erase_all
rules_of-remove_rule_local sid name j m = elim (Option-cases (find sid m)) [
  | inl e ↦ ground (arith, e, text_eq_iff sid j)
  | inr (l, e) ↦ ground (arith, e, find-assign sid j (erase_all name l) m)
]

pub rules_of-remove_sess_local :
    (sid j : Text) (m : SessRules)
    → rules_of j (remove_sess_local sid m) ≡ (if text_eq sid j then [] else rules_of j m)
unfolding rules_of remove_sess_local
rules_of-remove_sess_local sid j m = elim (Option-cases (find sid m)) [
  | inl e ↦ ground (arith, e, text_eq_iff sid j)
  | inr (l, e) ↦ ground (arith, e, find-erase sid j m)
]

-- The operations that change the rule cache: the two that also send a command, which are guarded,
-- and the three that the commands of other nodes run, which are not.
pub data RuleOp : Type 0 where
  insert_op : Text → Text → RuleOp
  remove_rule_op : Text → Text → RuleOp
  insert_local_op : Text → Text → RuleOp
  remove_rule_local_op : Text → Text → RuleOp
  remove_sess_op : Text → RuleOp

unfoldable pub run_op : RuleOp → SessRules → SessRules
run_op (insert_op sid name) m = (insert_rule sid name m).0
run_op (remove_rule_op sid name) m = (remove_rule sid name m).0
run_op (insert_local_op sid name) m = insert_rule_local sid name m
run_op (remove_rule_local_op sid name) m = remove_rule_local sid name m
run_op (remove_sess_op sid) m = remove_sess_local sid m

-- What an operation does to the list of one session.
unfoldable pub effect_on : Text → RuleOp → List Text → List Text
effect_on j (insert_op sid name) l =
    if text_eq sid j && not (is_empty sid || is_empty name) then l ++ name ∷ [] else l
effect_on j (remove_rule_op sid name) l =
    if text_eq sid j && not (is_empty sid || is_empty name) then erase_all name l else l
effect_on j (insert_local_op sid name) l = if text_eq sid j then l ++ name ∷ [] else l
effect_on j (remove_rule_local_op sid name) l = if text_eq sid j then erase_all name l else l
effect_on j (remove_sess_op sid) l = if text_eq sid j then [] else l

-- Each of the five operations that change the cache does to the list of each session what its effect
-- on that list is: a rule is appended, or all copies of it are removed, or the session is forgotten,
-- for the session that is named only. The two that also send a command do nothing for an empty
-- identifier or name; the three local ones act on them as on any other.
pub rules_of-run_op :
    (op : RuleOp) (j : Text) (m : SessRules)
    → rules_of j (run_op op m) ≡ effect_on j op (rules_of j m)
unfolding run_op effect_on insert_rule remove_rule
rules_of-run_op (insert_op sid name) j m =
    ground (arith, rules_of-insert_rule_local sid name j m, text_eq_iff sid j)
rules_of-run_op (remove_rule_op sid name) j m =
    ground (arith, rules_of-remove_rule_local sid name j m, text_eq_iff sid j)
rules_of-run_op (insert_local_op sid name) j m =
    ground (arith, rules_of-insert_rule_local sid name j m, text_eq_iff sid j)
rules_of-run_op (remove_rule_local_op sid name) j m =
    ground (arith, rules_of-remove_rule_local sid name j m, text_eq_iff sid j)
rules_of-run_op (remove_sess_op sid) j m = rules_of-remove_sess_local sid j m

-- A rule that was removed from a session is not among its rules, however often it was inserted
-- before.
contains-remove_rule_local :
    (sid name : Text) (m : SessRules)
    → contains name (rules_of sid (remove_rule_local sid name m)) ≡ false
contains-remove_rule_local sid name m =
    rw
      (
        rules_of-remove_rule_local sid name sid m,
        text_eq_refl sid,
        contains-erase_all name name (rules_of sid m),
        text_eq_refl name,
      )
      (ground arith)
