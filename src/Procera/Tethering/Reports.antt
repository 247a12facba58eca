-- ===== src/Procera/Tethering/Reports.antt =====
-- What a sequence of reports leaves in the map of pcrf_procera_oper_thetering_report of
-- src/procera/pcrf_procera.cpp, and which of them add the redirect rule.
use pcrf.Common.{
  ℕ, ◌≡◌, refl, sym, ◌∙◌, subst, Bool, true, false, not, ◌&&◌, Option, none, some, List, [], ◌∷◌,
  ◌++◌, ◌==◌, arith, if◌then◌else◌, Bool-cases, inl, inr,
}
use mathlib.Core.List.{append-nil}
use pcrf.Common.Text.{Text, text_eq, text_eq_iff}
use pcrf.Common.Map.{Map, find, find-insert, find-assign, find-erase}
use pcrf.Types.{OtlValue, AbonRule}
use pcrf.Procera.Tethering.{
  Tethering, redirect_rule, add_redirect, first_report, oper_thetering_report,
}

-- The reports of several requests, one after the other: each has its own lists of rules.
unfoldable pub run_reports : List (Text × OtlValue ℕ) → Map ℕ → Map ℕ
run_reports [] m = m
run_reports ((sid, flag) ∷ reports) m =
    run_reports reports
      (oper_thetering_report sid flag (record { sessions = m; rules = []; active = [] })).sessions

-- Whether a session is recorded behind a report of it: a null flag changes nothing, 0 changes from
-- the one to the other, and any other flag records the session.
unfoldable pub next : Bool → OtlValue ℕ → Bool
next recorded flag = if flag.is_null then recorded else if flag.v == 0 then not recorded else true

unfoldable pub is_recorded : Text → Bool → List (Text × OtlValue ℕ) → Bool
unfolding next
is_recorded sid recorded [] = recorded
is_recorded sid recorded ((s, flag) ∷ reports) =
    is_recorded sid (if text_eq s sid then next recorded flag else recorded) reports

abbrev pub entry : Bool → Option ℕ
entry recorded = if recorded then some 1 else none

-- One report, for its own session and for another one.
find-own :
    (sid : Text) (flag : OtlValue ℕ) (t : Tethering) (recorded : Bool)
    → find sid t.sessions ≡ entry recorded
    → find sid (oper_thetering_report sid flag t).sessions ≡ entry (next recorded flag)
unfolding oper_thetering_report first_report add_redirect next
find-own sid flag t true h =
    ground (
      arith,
      h,
      find-assign sid sid 1 t.sessions,
      find-erase sid sid t.sessions,
      text_eq_iff sid sid,
    )
find-own sid flag t false h =
    ground (arith, h, find-insert sid sid 1 t.sessions, text_eq_iff sid sid)

find-other :
    (s sid : Text) (flag : OtlValue ℕ) (t : Tethering)
    → text_eq s sid ≡ false
    → find sid (oper_thetering_report s flag t).sessions ≡ find sid t.sessions
unfolding oper_thetering_report first_report add_redirect
find-other s sid flag t other = ground (
  arith,
  other,
  find-assign s sid 1 t.sessions,
  find-erase s sid t.sessions,
  find-insert s sid 1 t.sessions,
)

find-one :
    (s sid : Text) (flag : OtlValue ℕ) (t : Tethering) (recorded : Bool)
    → find sid t.sessions ≡ entry recorded
    → find sid (oper_thetering_report s flag t).sessions
      ≡ entry (if text_eq s sid then next recorded flag else recorded)
find-one s sid flag t recorded h = elim (Bool-cases (text_eq s sid)) [
  | inl e ↦
      let same : s ≡ sid = (text_eq_iff s sid).0 e in
      rw e (
        subst (λ x. find sid (oper_thetering_report x flag t).sessions ≡ entry (next recorded flag))
          (sym same) (find-own sid flag t recorded h))
  | inr e ↦ rw e (find-other s sid flag t e ∙ h)
]

find-many :
    (reports : List (Text × OtlValue ℕ)) (sid : Text) (m : Map ℕ) (recorded : Bool)
    → find sid m ≡ entry recorded
    → find sid (run_reports reports m) ≡ entry (is_recorded sid recorded reports)
unfolding run_reports is_recorded
find-many [] sid m recorded h = h
find-many ((s, flag) ∷ reports) sid m recorded h =
    find-many reports sid _ (if text_eq s sid then next recorded flag else recorded)
      (find-one s sid flag (record { sessions = m; rules = []; active = [] }) recorded h)

-- The rules behind a report.
abbrev pub redirect : OtlValue ℕ → AbonRule
redirect flag = record redirect_rule {
  is_active = not flag.is_null && flag.v == 0;
  is_relevant = true;
}

rules-report :
    (sid : Text) (flag : OtlValue ℕ) (t : Tethering) (recorded : Bool)
    → find sid t.sessions ≡ entry recorded
    → (oper_thetering_report sid flag t).rules
      ≡ t.rules ++ (if next recorded flag then redirect flag ∷ [] else [])
unfolding oper_thetering_report first_report add_redirect next
rules-report sid flag t true h = ground (arith, h, append-nil t.rules)
rules-report sid flag t false h = ground (arith, h, append-nil t.rules)

-- After any reports of any sessions, beginning with an empty map, a report of a session leaves it
-- recorded, with the value 1, or not, as its own reports alone decide: a null flag changes nothing,
-- 0 changes from the one to the other, so that it records a session that was not, and another flag
-- records it. The rule of the redirection is appended to the rules of the request exactly where the
-- session is then recorded; it is relevant, and active for the flag 0 only.
pub find-run_reports :
    (reports : List (Text × OtlValue ℕ)) (sid : Text) (flag : OtlValue ℕ)
    (rules active : List AbonRule)
    → let t =
        oper_thetering_report sid flag
          (record { sessions = run_reports reports []; rules = rules; active = active }) in
      let recorded = next (is_recorded sid false reports) flag in
      (find sid t.sessions ≡ (if recorded then some 1 else none))
      × (t.rules ≡ rules ++ (if recorded then redirect flag ∷ [] else []))
find-run_reports reports sid flag rules active =
    let t : Tethering = record {
      sessions = run_reports reports [];
      rules = rules;
      active = active;
    } in
    let before = find-many reports sid [] false (unfold find in refl) in
    (
      find-own sid flag t (is_recorded sid false reports) before,
      rules-report sid flag t (is_recorded sid false reports) before,
    )
