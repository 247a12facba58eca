-- ===== src/Timed/Gathering.antt =====
-- What pcrf_subscriber_data_timed_oper of src/data_proc/pcrf_timed_oper.cpp gathers.
use pcrf.Common.{◌≡◌, inl, inr, refl, false, ◌==◌, if◌then◌else◌, Bool-cases}
use pcrf.Types.{initial_request}
use pcrf.Rules.{create_abon_rule_list, select_notrelevant_active, make_mk_list}
use pcrf.Timed.{
  SubscriberData, TimedData, Sources, Stage, connecting, reporting, reported, loading, loaded,
  selecting, selected, keying, releasing, awaiting, ended, work, report_usage, new_timed_data,
  new_monitoring_info,
}

-- What the working thread gathers where it is not switched to offline, part by part from the last.
abbrev from_keying : Sources → TimedData → TimedData
from_keying src d = record d {
  monit_info = src.monit_key (make_mk_list new_monitoring_info d.abon_rules d.monit_info);
}

abbrev from_selecting : Sources → SubscriberData → TimedData → TimedData
from_selecting src s d = from_keying src (
    if s.ccr_type == initial_request then d else record d {
      abon_rules = (select_notrelevant_active d.abon_rules d.active).0;
      active = (select_notrelevant_active d.abon_rules d.active).1;
    })

abbrev from_loading : Sources → SubscriberData → TimedData → TimedData
from_loading src s d =
    if d.operate_rule
    then from_selecting src s (record d {
      abon_rules = create_abon_rule_list src.rules src.rule_names s.peer_dialect d.abon_rules;
    })
    else d

-- The whole: nothing without a connection; else the usage is reported; then, if rules are to be
-- operated, the rules are loaded, compared with the active ones unless the request is the initial
-- one, and their monitoring keys are read.
unfoldable pub gathered : Sources → SubscriberData → TimedData
unfolding report_usage
gathered src s =
    if src.db_pool_get
    then from_loading src s (report_usage src false s (new_timed_data s))
    else new_timed_data s

-- What is still to come of it at a stage.
unfoldable pub rest_of : Sources → SubscriberData → Stage → TimedData → TimedData
rest_of src s connecting d =
    if src.db_pool_get then from_loading src s (report_usage src false s d) else d
rest_of src s reporting d = from_loading src s (report_usage src false s d)
rest_of src s reported d = from_loading src s d
rest_of src s loading d = from_loading src s d
rest_of src s loaded d = if d.operate_rule then from_selecting src s d else d
rest_of src s selecting d = from_selecting src s d
rest_of src s selected d = from_keying src d
rest_of src s keying d = from_keying src d
rest_of src s releasing d = d
rest_of src s awaiting d = d
rest_of src s ended d = d

pub rest_of-work :
    (src : Sources) (s : SubscriberData) (st : Stage) (d : TimedData)
    → rest_of src s (work src false s st d).0 (work src false s st d).1 ≡ rest_of src s st d
unfolding rest_of work
rest_of-work src s connecting d = elim (Bool-cases src.db_pool_get) [
  | inl e ↦ rw e refl
  | inr e ↦ rw e refl
]
rest_of-work src s reporting d = refl
rest_of-work src s reported d = refl
rest_of-work src s loading d = elim (Bool-cases d.operate_rule) [
  | inl e ↦ rw e refl
  | inr e ↦ rw e refl
]
rest_of-work src s loaded d = elim (Bool-cases d.operate_rule) [
  | inl e ↦ rw e refl
  | inr e ↦ rw e refl
]
rest_of-work src s selecting d = elim (Bool-cases (s.ccr_type == initial_request)) [
  | inl e ↦ rw e refl
  | inr e ↦ rw e refl
]
rest_of-work src s selected d = refl
rest_of-work src s keying d = refl
rest_of-work src s releasing d = refl
rest_of-work src s awaiting d = refl
rest_of-work src s ended d = refl

pub rest_of-over :
    (src : Sources) (s : SubscriberData) (d : TimedData)
    → (rest_of src s releasing d ≡ d) × (rest_of src s awaiting d ≡ d) × (rest_of src s ended d ≡ d)
unfolding rest_of
rest_of-over src s d = (refl, refl, refl)
