-- ===== src/RuleCache.antt =====
-- The cache of the rules of each session: src/pcrf_session_rule_cache.cpp.
pub mod Contents
use pcrf.Common.{
  ℕ, ◌≡◌, Bool, true, false, Option, none, some, List, [], ◌∷◌, ◌++◌, map, if◌then◌else◌, ◌||◌,
  ◌&&◌,
}
use pcrf.Common.Text.{Text}
use pcrf.Common.Lists.{erase_all}
use pcrf.Common.Map.{Map, find, assign, insert, erase}
use pcrf.Types.{AbonRule, new_abon_rule, enodata}

-- g_mapSessRuleLst; each operation runs under g_mutexSessRuleLst, and locking is assumed to
-- succeed.
abbrev pub SessRules : Type 0
SessRules = Map (List Text)

-- soRule( true, false ) with the name of an active rule.
unfoldable pub active_rule : Text → AbonRule
active_rule name = record new_abon_rule { is_active = true; rule_name = name }

-- pcrf_session_rule_cache_get: the code, and the rules appended to the out-parameter.
unfoldable pub get_rules : Text → List AbonRule → SessRules → ℕ × List AbonRule
unfolding active_rule
get_rules sid out m = elim (find sid m) [
  | none ↦ (enodata, out)
  | some l ↦ elim l [ [] ↦ (enodata, out) | x ∷ xs ↦ (0, out ++ map active_rule (x ∷ xs)) ]
]

-- pcrf_session_rule_cache_insert_local.
unfoldable pub insert_rule_local : Text → Text → SessRules → SessRules
insert_rule_local sid name m = elim (find sid m) [
  | some l ↦ assign sid (l ++ name ∷ []) m
  | none ↦ insert sid (name ∷ []) m
]

-- pcrf_session_rule_cache_remove_sess_local.
unfoldable pub remove_sess_local : Text → SessRules → SessRules
remove_sess_local sid m = elim (find sid m) [ some _ ↦ erase sid m | none ↦ m ]

-- pcrf_session_rule_cache_remove_rule_local.
unfoldable pub remove_rule_local : Text → Text → SessRules → SessRules
remove_rule_local sid name m = elim (find sid m) [
  | some l ↦ assign sid (erase_all name l) m
  | none ↦ m
]

abbrev pub is_empty : Text → Bool
is_empty [] = true
is_empty (_ ∷ _) = false

-- A command for the other nodes: the Session-Id and the rule.
abbrev RuleCommand : Type 0
RuleCommand = Text × Text

-- pcrf_session_rule_cache_insert: the cache, and what is sent as PCRF_CMD_INSERT_SESSRUL.
unfoldable pub insert_rule : Text → Text → SessRules → SessRules × Option RuleCommand
unfolding insert_rule_local
insert_rule sid name m =
    if is_empty sid || is_empty name
    then (m, none)
    else (insert_rule_local sid name m, some (sid, name))

-- pcrf_session_rule_cache_remove_rule: likewise, sent as PCRF_CMD_REMOVE_SESSRUL.
unfoldable pub remove_rule : Text → Text → SessRules → SessRules × Option RuleCommand
unfolding remove_rule_local
remove_rule sid name m =
    if is_empty sid || is_empty name
    then (m, none)
    else (remove_rule_local sid name m, some (sid, name))
