-- ===== src/Timed.antt =====
-- The data of a subscriber, gathered by a thread of its own while the request waits for a limited
-- time: src/data_proc/pcrf_timed_oper.cpp.
pub mod Protocol
pub mod Quota
pub mod Gathering
pub mod Soundness
pub mod Endings
use pcrf.Common.{
  ℕ, zero, suc, ◌+◌, ◌-◌, Bool, true, false, not, ◌&&◌, ◌||◌, Option, none, some, List, [], ◌∷◌,
  ◌++◌, ◌==◌, ltb, if◌then◌else◌,
}
use pcrf.Common.Text.{Text}
use pcrf.Common.Map.{Map, insert}
use pcrf.Types.{
  OtlValue, to_otl, UserEnvironment, SessionUsageInfo, AbonRule, initial_request, update_request,
  termination_request,
}
use pcrf.Rules.{
  RuleMap, server_load_rule_info, create_abon_rule_list, select_notrelevant_active, make_mk_list,
}
use pcrf.Selector.{Conditions, get_default_rule_list}

-- SDBMonitoringInfo.
pub record MonitoringInfo : Type 0 where
  pub is_reported : Bool
  pub dosage_total_octets : OtlValue ℕ
  pub dosage_output_octets : OtlValue ℕ
  pub dosage_input_octets : OtlValue ℕ

abbrev null_count : OtlValue ℕ
null_count = record { v = 0; is_null = true }

abbrev pub new_monitoring_info : MonitoringInfo
new_monitoring_info = record {
  is_reported = false;
  dosage_total_octets = null_count;
  dosage_output_octets = null_count;
  dosage_input_octets = null_count;
}

-- SSubscriberData, the members that the modelled operations use; of the action set the two bits
-- that they test.
pub record SubscriberData : Type 0 where
  pub ccr_type : ℕ
  pub subscriber_id : Text
  pub peer_dialect : ℕ
  pub usage_info : List SessionUsageInfo
  pub user_environment : UserEnvironment
  pub active : List AbonRule
  pub update_quota : Bool
  pub operate_rule : Bool
  pub abon_rules : List AbonRule
  pub monit_info : Map MonitoringInfo

-- The members of STimedData that the thread fills, with m_vectActive of the subscriber data, which
-- it marks.
pub record TimedData : Type 0 where
  pub abon_rules : List AbonRule
  pub monit_info : Map MonitoringInfo
  pub update_quota : Bool
  pub operate_rule : Bool
  pub active : List AbonRule

-- STimedData::STimedData.
unfoldable pub new_timed_data : SubscriberData → TimedData
new_timed_data s = record {
  abon_rules = [];
  monit_info = [];
  update_quota = s.update_quota;
  operate_rule = s.operate_rule;
  active = s.active;
}

-- What the database and the caches answer: whether a connection is got in time; the map and
-- iUpdateRule after pcrf_db_session_usage; the names of the rules of the subscriber; the map after
-- pcrf_server_db_monit_key. And the configuration.
pub record Sources : Type 0 where
  pub db_pool_get : Bool
  pub session_usage : List SessionUsageInfo → Map MonitoringInfo → Map MonitoringInfo × Bool
  pub rule_names : List Text
  pub monit_key : Map MonitoringInfo → Map MonitoringInfo
  pub rules : RuleMap
  pub default_rules : Map Conditions
  pub default_quota : ℕ

-- What is inserted for one usage report.
unfoldable pub def_quota : ℕ → SessionUsageInfo → MonitoringInfo
def_quota quota u = record {
  is_reported = true;
  dosage_total_octets = if u.total_octets.is_null then null_count else to_otl quota;
  dosage_output_octets = if u.output_octets.is_null then null_count else to_otl quota;
  dosage_input_octets = if u.input_octets.is_null then null_count else to_otl quota;
}

-- pcrf_subscriber_data_load_def_quota.
unfoldable pub load_def_quota : ℕ → List SessionUsageInfo → Map MonitoringInfo → Map MonitoringInfo
unfolding def_quota
load_def_quota quota [] m = m
load_def_quota quota (u ∷ us) m =
    load_def_quota quota us (insert u.monitoring_key.v (def_quota quota u) m)

-- map::insert of every element of another map.
unfoldable insert_all {ℓ} : {V : Type ℓ} → Map V → Map V → Map V
insert_all [] m = m
insert_all ((k, v) ∷ from) m = insert_all from (insert k v m)

-- The end of pcrf_subscriber_data_proc where the data was ready in time.
unfoldable pub copy_data : TimedData → SubscriberData → SubscriberData
unfolding insert_all
copy_data d s = record s {
  abon_rules = s.abon_rules ++ d.abon_rules;
  monit_info = insert_all d.monit_info s.monit_info;
  update_quota = d.update_quota;
  operate_rule = d.operate_rule;
}

-- The end of pcrf_subscriber_data_proc where it was not.
unfoldable pub use_defaults : Sources → SubscriberData → SubscriberData
unfolding load_def_quota
use_defaults src s =
    if s.ccr_type == initial_request
    then record s {
      abon_rules =
          server_load_rule_info src.rules
            (get_default_rule_list s.user_environment s.peer_dialect src.default_rules [])
            s.peer_dialect s.abon_rules;
    }
    else if s.ccr_type == update_request
    then record s { monit_info = load_def_quota src.default_quota s.usage_info s.monit_info }
    else s

-- pcrf_subscriber_data_increment_counter: the result and the new g_uiThreadCount.
unfoldable increment_counter : ℕ → ℕ → Bool × ℕ
increment_counter max count = if ltb count max then (true, count + 1) else (false, count)

-- pcrf_subscriber_data_decrement_counter.
unfoldable decrement_counter : ℕ → ℕ
decrement_counter count = if count == 0 then 4294967295 else count - 1

-- Where pcrf_subscriber_data_timed_oper is: before each part of its body and each of its tests of
-- m_iSwitchedToOffline; before the unlock of m_mutexDataReady; before the lock of
-- m_mutexDataCopied; behind its end.
pub data Stage : Type 0 where
  connecting reporting reported loading loaded selecting selected keying : Stage
  releasing awaiting ended : Stage

-- The part that reports the usage.
unfoldable pub report_usage : Sources → Bool → SubscriberData → TimedData → TimedData
report_usage src offline s d =
    if d.update_quota && (not offline && not (s.ccr_type == termination_request))
    then (let (m, update_rule) = src.session_usage s.usage_info d.monit_info in
        record d { monit_info = m; operate_rule = d.operate_rule || update_rule })
    else d

-- One part of the body: the next stage, and the data.
unfoldable pub work : Sources → Bool → SubscriberData → Stage → TimedData → Stage × TimedData
unfolding report_usage
work src offline s connecting d = (if src.db_pool_get then reporting else releasing, d)
work src offline s reporting d = (reported, report_usage src offline s d)
work src offline s reported d = (if offline then releasing else loading, d)
work src offline s loading d = (
  loaded,
  if d.operate_rule
      then record d {
        abon_rules = create_abon_rule_list src.rules src.rule_names s.peer_dialect d.abon_rules;
      }
      else d,
)
work src offline s loaded d =
    (if offline then releasing else if d.operate_rule then selecting else releasing, d)
work src offline s selecting d = (
  selected,
  if s.ccr_type == initial_request
      then d
      else (let (rules, active) = select_notrelevant_active d.abon_rules d.active in
          record d { abon_rules = rules; active = active }),
)
work src offline s selected d = (if offline then releasing else keying, d)
work src offline s keying d = (
  releasing,
  record d {
    monit_info = src.monit_key (make_mk_list new_monitoring_info d.abon_rules d.monit_info);
  },
)
work src offline s stage d = (stage, d)
