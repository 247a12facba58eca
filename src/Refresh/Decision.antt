-- ===== src/Refresh/Decision.antt =====
-- When pcrf_client_operate_refqueue_record of src/pcrf_client.cpp sends what.
use pcrf.Common.{◌≡◌, refl, Bool, false, ◌&&◌, List, [], ◌∷◌, map, ◌==◌, if◌then◌else◌, arith}
use pcrf.Common.Text.{Text}
use pcrf.Types.{SessionInfo, RequestInfo, AbonRule, gx_cisco_sce}
use pcrf.RuleCache.{active_rule}
use pcrf.RuleCache.Contents.{rules_of, get_rules-rules_of}
use pcrf.Rules.{RuleRow, SceRow, load_rule_list, select_notrelevant_active, is_any_changes}
use pcrf.Rules.Loaded.{Loads, known, create_abon_rule_list-Loads}
use pcrf.Rules.Selection.{names_of, Fresh, subset, is_any_changes-select_notrelevant_active}
use pcrf.Refresh.{
  World, profile_rules, apply_rules, Outcome, skipped, not_connected, release, unchanged, rar,
  choose_rules,
}

-- What an outcome is, without what is sent.
pub data Kind : Type 0 where
  skips disconnects releases keeps sends : Kind

abbrev pub kind_of : Outcome → Kind
kind_of skipped = skips
kind_of not_connected = disconnects
kind_of (release info) = releases
kind_of unchanged = keeps
kind_of (rar info active rules triggers) = sends

Fresh-Loads : (xs : List Text) (rs : List AbonRule) → Loads xs rs → Fresh rs
Fresh-Loads [] [] h = tt
Fresh-Loads [] (r ∷ rs) h = elim h [ ]
Fresh-Loads (x ∷ xs) [] h = elim h [ ]
Fresh-Loads (x ∷ xs) (r ∷ rs) h = (h.0.0, h.0.1, Fresh-Loads xs rs h.1)

names_of-Loads : (xs : List Text) (rs : List AbonRule) → Loads xs rs → names_of rs ≡ xs
names_of-Loads [] [] h = refl
names_of-Loads [] (r ∷ rs) h = elim h [ ]
names_of-Loads (x ∷ xs) [] h = elim h [ ]
names_of-Loads (x ∷ xs) (r ∷ rs) h = rw (h.0.2, names_of-Loads xs rs h.1) refl

-- The kind of outcome for the names of the profile that are known and the names of the rules
-- that are active.
abbrev kind_by : List Text → List Text → Kind
kind_by [] active = releases
kind_by (x ∷ xs) active = if subset active (x ∷ xs) && subset (x ∷ xs) active then keeps else sends

-- Rules that load the names of the profile: what the comparison with the active rules gives.
compared :
    (xs : List Text) (rs : List AbonRule) (active : List Text)
    → Loads xs rs
    → is_any_changes
        (select_notrelevant_active rs (map active_rule active)).1
        (select_notrelevant_active rs (map active_rule active)).0
      ≡ (if subset active xs && subset xs active then 0 else 1)
compared xs rs active h =
    rw
      (
        is_any_changes-select_notrelevant_active rs active (Fresh-Loads xs rs h),
        names_of-Loads xs rs h,
      )
      refl

kind-apply_rules :
    (xs : List Text) (out : List AbonRule) (info : SessionInfo) (installed : Bool) (w : World)
    → Loads xs out
    → kind_of (apply_rules out info installed w).0 ≡ kind_by xs (rules_of info.session_id w.rules)
unfolding apply_rules
kind-apply_rules [] [] info installed w h = refl
kind-apply_rules [] (r ∷ rs) info installed w h = elim h [ ]
kind-apply_rules (x ∷ xs) [] info installed w h = elim h [ ]
kind-apply_rules (x ∷ xs) (r ∷ rs) info installed w h =
    rw
      (
        get_rules-rules_of info.session_id [] w.rules,
        compared (x ∷ xs) (r ∷ rs) (rules_of info.session_id w.rules) h,
      )
      (ground arith)

-- For a session whose dialect is not GX_CISCO_SCE, with the rules that the rule cache has loaded:
-- the session is released where the rule cache knows no name of its profile; it is left alone
-- where the names that it knows and the rules of the session are the same set; and else rules are
-- sent.
pub kind-choose_rules :
    (rows : List RuleRow) (sce : List SceRow) (info : SessionInfo) (req : RequestInfo)
    (installed : Bool) (w : World)
    → w.rule_map ≡ load_rule_list rows sce
    → (info.peer_dialect == gx_cisco_sce) ≡ false
    → kind_of (choose_rules info req installed w).0
      ≡ kind_by
          (known (load_rule_list rows sce) (w.names info req))
          (rules_of info.session_id w.rules)
unfolding choose_rules profile_rules
kind-choose_rules rows sce info req installed w loaded dialect =
    kind-apply_rules (known (load_rule_list rows sce) (w.names info req)) (profile_rules info req w)
      info installed w
      (rw loaded
        (create_abon_rule_list-Loads rows sce (w.names info req) info.peer_dialect _ dialect))
