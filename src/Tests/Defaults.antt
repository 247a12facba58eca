-- ===== src/Tests/Defaults.antt =====
-- The theorems on the data that is gathered in time and on the default rules.
use pcrf.Common.{◌≤◌, ◌≡◌, ◌⊎◌, refl, true, false, List, [], ◌∷◌}
use pcrf.Common.Text.{Text, bytes, text_eq}
use pcrf.Common.Lists.{contains}
use pcrf.Types.{UserEnvironment, new_user_environment, to_otl, initial_request, gx_hw_ugw}
use pcrf.Selector.{Conditions, get_default_rule_list, add_all}
use pcrf.Selector.Chosen.{accepts, conditions_of, is_named, contains-get_default_rule_list}
use pcrf.Timed.{SubscriberData, Sources, ended, copy_data, use_defaults}
use pcrf.Timed.Gathering.{gathered}
use pcrf.Timed.Protocol.{
  State, begin, returned, Run, start, then_step, Step, gives_up, switches, defaults,
}
use pcrf.Timed.Endings.{Run-result, Run-ends}

-- Rules for two access types, one of them in two calls, and one for a dialect.
abbrev calls : List (Conditions × Text)
calls =
    ((bytes "RAT_TYPE", bytes "EUTRAN") ∷ [], bytes "fast")
    ∷ ((bytes "RAT_TYPE", bytes "UTRAN") ∷ [], bytes "fast")
    ∷ ((bytes "PEER_DIALECT", bytes "GX_PROCERA") ∷ [], bytes "shaped")
    ∷ []

abbrev on_utran : UserEnvironment
on_utran = record new_user_environment { rat_type = to_otl (bytes "UTRAN") }

contains-get_default_rule_list_example :
    contains (bytes "fast") (get_default_rule_list on_utran gx_hw_ugw (add_all calls []) []) ≡ true
unfolding is_named accepts conditions_of text_eq
contains-get_default_rule_list_example =
    contains-get_default_rule_list calls on_utran gx_hw_ugw (bytes "fast")

abbrev initial : SubscriberData
initial = record {
  ccr_type = initial_request;
  subscriber_id = bytes "1";
  peer_dialect = gx_hw_ugw;
  usage_info = [];
  user_environment = on_utran;
  active = [];
  update_quota = false;
  operate_rule = true;
  abon_rules = [];
  monit_info = [];
}

abbrev sources : Sources
sources = record {
  db_pool_get = true;
  session_usage = λ _ m. (m, false);
  rule_names = [];
  monit_key = λ m. m;
  rules = [];
  default_rules = [];
  default_quota = 1000;
}

-- The wait fails at once.
abbrev switched : State
switched = record (begin initial) {
  waiter = returned;
  offline = true;
  data_copied = false;
  subscriber = use_defaults sources initial;
}

switched_run : Run sources (begin initial) 3 switched
unfolding begin
switched_run =
    then_step (then_step (then_step start (gives_up (begin initial) refl)) (switches _ refl))
      (defaults _ refl)

Run-result_example :
    ((switched.offline ≡ true) × (switched.subscriber ≡ use_defaults sources initial))
    ⊎ ((switched.offline ≡ false)
        × (switched.subscriber ≡ copy_data (gathered sources initial) initial))
Run-result_example = Run-result sources initial 3 switched switched_run refl

Run-ends_example :
    (3 ≤ 13)
    × (((t : State) × Step sources switched t)
        ⊎ ((switched.waiter ≡ returned) × (switched.stage ≡ ended) × (switched.alive ≡ false)))
Run-ends_example = Run-ends sources initial 3 switched switched_run
