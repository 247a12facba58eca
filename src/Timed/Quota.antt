-- ===== src/Timed/Quota.antt =====
-- The default quota of src/data_proc/pcrf_timed_oper.cpp.
use pcrf.Common.{
  ◌≡◌, Option, none, some, List, [], ◌∷◌, if◌then◌else◌, arith, inl, inr, Option-cases, ℕ,
}
use pcrf.Common.Text.{Text, text_eq, text_eq_iff}
use pcrf.Common.Map.{Map, find, insert, find-insert, insert-present}
use pcrf.Types.{SessionUsageInfo}
use pcrf.Timed.{MonitoringInfo, def_quota, load_def_quota}

-- The first report on a key.
unfoldable first_report : Text → List SessionUsageInfo → Option SessionUsageInfo
first_report k [] = none
first_report k (u ∷ us) = if text_eq u.monitoring_key.v k then some u else first_report k us

-- After pcrf_subscriber_data_load_def_quota each key has the data it had; a key that had none has
-- the default quota in each direction that its first report counts, and keys without a report have
-- none.
find-load_def_quota :
    (quota : ℕ) (us : List SessionUsageInfo) (k : Text) (m : Map MonitoringInfo)
    → find k (load_def_quota quota us m) ≡ elim (find k m) [
      | some old ↦ some old
      | none ↦ elim (first_report k us) [ none ↦ none | some u ↦ some (def_quota quota u) ]
    ]
unfolding load_def_quota first_report
find-load_def_quota quota [] k m = ground arith
find-load_def_quota quota (u ∷ us) k m = elim (Option-cases (find u.monitoring_key.v m)) [
  | inl e ↦ ground (
    arith,
    find-load_def_quota quota us k (insert u.monitoring_key.v (def_quota quota u) m),
    find-insert u.monitoring_key.v k (def_quota quota u) m e,
    text_eq_iff u.monitoring_key.v k,
  )
  | inr (w, e) ↦ ground (
    arith,
    find-load_def_quota quota us k (insert u.monitoring_key.v (def_quota quota u) m),
    insert-present u.monitoring_key.v (def_quota quota u) w m e,
    text_eq_iff u.monitoring_key.v k,
  )
]
