-- ===== src/Gx.antt =====
-- The handling of a Gx credit control request, as far as it changes the session caches:
-- app_pcrf_ccr_cb of src/pcrf_server.cpp.
pub mod Lifetime
pub mod Core
pub mod Kept
pub mod Exchange
use pcrf.Common.{
  ℕ, Bool, true, false, ◌&&◌, ◌||◌, not, Option, none, some, List, [], ◌∷◌, ◌++◌, ◌==◌, ltb,
  if◌then◌else◌,
}
use pcrf.Common.Text.{Text}
use pcrf.Common.Lists.{length}
use pcrf.Types.{
  SessionInfo, RequestInfo, SubscriptionIdData, null_text, new_session_info, gx_cisco_sce,
  gx_procera, initial_request, update_request, termination_request,
}
use pcrf.Peer.{peer_dialect}
use pcrf.Rules.Actions.{ActionSet, is_ipcan_dialect, determine_action_set}
use pcrf.Subscribers.{SubscriptionMaps, get_subscriber_id}
use pcrf.Refresh.{LocalQueue, abort_sessions}
use pcrf.Session.FramedIp.{get_session_list}
use pcrf.Session.Store.{Store, get}
use pcrf.Session.Store.Search.{find_core_session, find_core_sess_byframedip}
use pcrf.Linked.{Action, or_else, linked_session_terminate, linked_session_rule_report}
use pcrf.Ipc.Codes.{Codes, PsPacket}
use pcrf.Ipc.Process.{Node}
use pcrf.Cluster.{session_cache_insert, session_cache_remove}

-- DIAMETER_SUCCESS, DIAMETER_TOO_BUSY, USER_UNKNOWN.
abbrev diameter_success : ℕ
diameter_success = 2001

abbrev diameter_too_busy : ℕ
diameter_too_busy = 3004

abbrev pub user_unknown : ℕ
user_unknown = 5030

-- The locals of the handler, with the local refresh queue. `calls` lists what is called for the
-- linked sessions.
pub record Ccr : Type 0 where
  pub info : SessionInfo
  pub req : RequestInfo
  pub action_set : ActionSet
  pub result_code : ℕ
  pub ipcan_session_id : Option Text
  pub sess_should_be_term : Option Text
  pub calls : List Action
  pub refresh_queue : LocalQueue

-- `find( "_" )` and `resize`.
unfoldable cut_suffix : Text → Text
cut_suffix [] = []
cut_suffix (c ∷ cs) = let rest = cut_suffix cs in if c == b'_' then [] else c ∷ rest

-- The subscription data of a Cisco SCE.
unfoldable move_e164 : SubscriptionIdData → SubscriptionIdData
move_e164 d =
    if d.end_user_imsi.is_null && not d.end_user_e164.is_null
    then record d { end_user_imsi = d.end_user_e164; end_user_e164 = null_text }
    else d

unfoldable cut_imsi : SubscriptionIdData → SubscriptionIdData
unfolding cut_suffix
cut_imsi d =
    if not d.end_user_imsi.is_null && ltb 15 (length d.end_user_imsi.v)
    then record d { end_user_imsi = record { v = cut_suffix d.end_user_imsi.v; is_null = false } }
    else d

unfoldable pub correct_cisco : SessionInfo → SessionInfo
unfolding move_e164 cut_imsi
correct_cisco info =
    if info.peer_dialect == gx_cisco_sce
    then record info { subscription_data = cut_imsi (move_e164 info.subscription_data) }
    else info

-- The result code after the request for a connection; `given` is what the pool answered.
unfoldable connection_code : Bool → ActionSet → ℕ → ℕ → ℕ
unfolding is_ipcan_dialect
connection_code given a dialect request_type =
    if (a.operate_rule || a.update_quota) && not given
    then (if is_ipcan_dialect dialect && request_type == update_request
        then diameter_success
        else diameter_too_busy)
    else diameter_success

-- pcrf_server_look4stalledsession.
unfoldable look4stalledsession : SessionInfo → Store → LocalQueue → LocalQueue
look4stalledsession info s queue =
    abort_sessions (get_session_list info.framed_ip_address.v [] s.framed_ip) queue

-- The handler before the switch; `look` is the setting m_iLook4StalledSession.
unfoldable pub begin_request : Bool → Bool → SessionInfo → RequestInfo → LocalQueue → Node → Ccr
unfolding correct_cisco connection_code look4stalledsession
begin_request look given info req queue n =
    let dialected = (peer_dialect n.peers info).1 in
    let a = determine_action_set n.peers dialected req in
    record {
      info = correct_cisco dialected;
      req = req;
      action_set = a;
      result_code = connection_code given a dialected.peer_dialect req.cc_request_type;
      ipcan_session_id = none;
      sess_should_be_term = none;
      calls = [];
      refresh_queue =
          if not (req.cc_request_type == initial_request) || not look
          then queue
          else look4stalledsession dialected n.store queue;
    }

unfoldable or_request : RequestInfo → Option RequestInfo → RequestInfo
or_request old none = old
or_request old (some req) = req

-- pcrf_session_cache_get into the locals, and its code.
unfoldable pub get_into : Text → Ccr → Store → ℕ × Ccr
unfolding get or_request
get_into sid c s =
    let g = get sid (some c.info) (some c.req) none s in
    (g.code, record c { info = or_else c.info g.info; req = or_request c.req g.req })

-- The core session that a search found, into the locals; `missing` is the result code where the
-- search failed.
unfoldable pub attach_core : ℕ → Ccr → Store → ℕ × Text → Ccr
unfolding get_into
attach_core missing c s (code, id) =
    if code == 0
    then record (get_into id c s).1 { ipcan_session_id = some id }
    else record c { ipcan_session_id = none; result_code = missing }

-- The searches for a Cisco SCE and for a Procera.
unfoldable pub cisco_core : ℕ → Ccr → Store → Ccr
unfolding attach_core
cisco_core missing c s =
    attach_core missing c s (find_core_session c.info.subscriber_id c.info.framed_ip_address.v [] s)

abbrev pub found_id : ℕ × SessionInfo → ℕ × Text
found_id (code, info) = (code, info.session_id)

unfoldable pub procera_core : ℕ → Ccr → Store → Ccr
unfolding attach_core
procera_core missing c s =
    attach_core missing c s
      (found_id (find_core_sess_byframedip c.info.framed_ip_address.v new_session_info s))

unfoldable pub with_subscriber_id : SubscriptionMaps → Ccr → Ccr
with_subscriber_id m c = record c {
  info = record c.info { subscriber_id = (get_subscriber_id c.info.subscription_data m).1 };
}

-- case INITIAL_REQUEST up to the insertion.
unfoldable pub initial : SubscriptionMaps → Ccr → Store → Ccr
unfolding with_subscriber_id cisco_core procera_core
initial m c s =
    let named = with_subscriber_id m c in
    let dialect = c.info.peer_dialect in
    if is_ipcan_dialect dialect
    then named
    else if dialect == gx_cisco_sce
    then cisco_core c.result_code named s
    else if dialect == gx_procera
    then procera_core user_unknown c s
    else c

-- case TERMINATION_REQUEST up to the removal.
unfoldable pub termination : Bool → Ccr → Node → Ccr
unfolding get_into
termination generate_cdr c n =
    let ended = record c { calls = linked_session_terminate n.store n.peers c.info.session_id } in
    if is_ipcan_dialect c.info.peer_dialect
    then (if generate_cdr || c.action_set.update_quota
        then (get_into c.info.session_id ended n.store).1
        else ended)
    else c

-- case UPDATE_REQUEST after the look-up of the session, with its code.
unfoldable pub updated : ℕ → Ccr → Node → Ccr
unfolding cisco_core procera_core
updated code c n =
    let dialect = c.info.peer_dialect in
    if is_ipcan_dialect dialect
    then (if code == 0
        then record c { calls = linked_session_rule_report n.store n.peers c.info.session_id }
        else record c { sess_should_be_term = some c.info.session_id })
    else if dialect == gx_cisco_sce
    then cisco_core user_unknown c n.store
    else if dialect == gx_procera
    then procera_core c.result_code c n.store
    else c

unfoldable pub update : Ccr → Node → Ccr
unfolding get_into updated
update c n = let (code, filled) = get_into c.info.session_id c n.store in updated code filled n

module _ (p : PsPacket) (k : Codes) (nodes : List (Option ℕ)) where
  -- The switch on the CC-Request-Type: the locals, the node, and the datagrams that are sent.
  unfoldable pub switch_request :
      SubscriptionMaps → Bool → Ccr → Node → Ccr × (Node × List (ℕ × Text))
  unfolding initial termination update
  switch_request m generate_cdr c n =
      if c.req.cc_request_type == initial_request
      then (let d = initial m c n.store in
          (
            d,
            session_cache_insert p k nodes d.info.session_id d.info (some d.req) d.ipcan_session_id
                n,
          ))
      else if c.req.cc_request_type == termination_request
      then (let d = termination generate_cdr c n in
          (d, session_cache_remove p k nodes d.info.session_id n))
      else if c.req.cc_request_type == update_request
      then (update c n, (n, []))
      else (c, (n, []))

  -- The handler up to the record that is written.
  unfoldable pub open_request :
      SubscriptionMaps
      → Bool
      → Bool
      → Bool
      → SessionInfo
      → RequestInfo
      → LocalQueue
      → Node
      → Ccr × (Node × List (ℕ × Text))
  unfolding begin_request switch_request
  open_request m generate_cdr look given info req queue n =
      switch_request m generate_cdr (begin_request look given info req queue n) n

  -- ACTION_UPDATE_SESSIONCACHE of an update request, where its answer is made.
  unfoldable pub update_cache : Ccr → Node → Node × List (ℕ × Text)
  update_cache c n =
      if c.req.cc_request_type == update_request && c.action_set.update_sessioncache
      then session_cache_insert p k nodes c.info.session_id c.info (some c.req) c.ipcan_session_id n
      else (n, [])

  -- The handler: its locals, the node, and what is sent to the other nodes. Between the two parts
  -- stand the CDR, the record in the database and the rules of the subscriber, which leave the
  -- session caches and these locals as they are; freeDiameter makes the answer.
  unfoldable pub ccr_cb :
      SubscriptionMaps
      → Bool
      → Bool
      → Bool
      → SessionInfo
      → RequestInfo
      → LocalQueue
      → Node
      → Ccr × (Node × List (ℕ × Text))
  unfolding open_request update_cache
  ccr_cb m generate_cdr look given info req queue n =
      let (c, (n', sent)) = open_request m generate_cdr look given info req queue n in
      let (n'', more) = update_cache c n' in (c, (n'', sent ++ more))
