-- ===== src/Refresh.antt =====
-- The refresh of policies: the local queue and pcrf_client_operate_refqueue_record of
-- src/pcrf_client.cpp, up to the request that it sends.
pub mod Decision
pub mod Queue
use pcrf.Common.{
  ℕ, Bool, true, false, not, ◌&&◌, ◌||◌, Option, none, some, List, [], ◌∷◌, ◌++◌, ◌==◌, leb,
  if◌then◌else◌,
}
use pcrf.Common.Text.{Text, bytes, text_eq}
use pcrf.Types.{
  OtlText, SessionInfo, RequestInfo, AbonRule, null_text, to_otl, new_session_info,
  new_request_info, gx_hw_ugw, gx_cisco_sce, gx_procera, gx_ericssn,
}
use pcrf.Peer.{PeerInfo, peer_dialect, peer_is_connected}
use pcrf.Session.Store.{Store, GetResult, get}
use pcrf.Session.Store.Search.{find_core_sess_byframedip, or_info}
use pcrf.RuleCache.{SessRules, get_rules}
use pcrf.Procera.{additional_rules}
use pcrf.Rules.{RuleMap, create_abon_rule_list, select_notrelevant_active, is_any_changes}

-- SRefQueue, less the row id, which only the database uses.
pub record RefQueue : Type 0 where
  pub identifier : Text
  pub identifier_type : Text
  pub action : OtlText

-- The constructor SRefQueue( identifier, type, action ); `none` is a null pointer.
unfoldable text_of : Option Text → Text
text_of none = []
text_of (some t) = t

unfoldable new_ref_queue : Text → Option Text → Option Text → RefQueue
unfolding text_of
new_ref_queue identifier type action = record {
  identifier = identifier;
  identifier_type = text_of type;
  action = elim (text_of action) [ [] ↦ null_text | a ∷ x ↦ to_otl (a ∷ x) ];
}

-- g_mmapLocalRefreshQueue, in the order of the multimap: by time, equal times in the order of
-- insertion.
abbrev pub LocalQueue : Type 0
LocalQueue = List (ℕ × RefQueue)

-- multimap::insert.
unfoldable pub queue_insert : ℕ → RefQueue → LocalQueue → LocalQueue
queue_insert t r [] = (t, r) ∷ []
queue_insert t r ((u, q) ∷ l) =
    let rest = queue_insert t r l in if leb u t then (u, q) ∷ rest else (t, r) ∷ (u, q) ∷ l

-- pcrf_local_refresh_queue_add.
unfoldable local_refresh_queue_add : ℕ → Text → Option Text → Option Text → LocalQueue → LocalQueue
unfolding queue_insert new_ref_queue
local_refresh_queue_add t identifier type action l =
    queue_insert t (new_ref_queue identifier type action) l

-- pcrf_client_load_localQueue_data at the time `now`: what is appended, and what stays.
unfoldable pub load_local_queue : ℕ → LocalQueue → List RefQueue × LocalQueue
load_local_queue now [] = ([], [])
load_local_queue now ((u, q) ∷ l) =
    let rest = load_local_queue now l in
    if leb u now then (q ∷ rest.0, rest.1) else ([], (u, q) ∷ l)

-- pcrf_server_look4stalledsession, the loop over the sessions of an address.
unfoldable pub abort_sessions : List Text → LocalQueue → LocalQueue
unfolding local_refresh_queue_add
abort_sessions [] l = l
abort_sessions (sid ∷ sids) l =
    abort_sessions sids
      (local_refresh_queue_add 0 sid (some (bytes "session_id")) (some (bytes "abort_session")) l)

-- What is done for one session of a record: nothing; nothing, and the other sessions are left
-- out; an RAR with a Session-Release-Cause; an RAR with rules to remove and to install and the
-- event triggers.
pub data Outcome : Type 0 where
  skipped : Outcome
  not_connected : Outcome
  release : SessionInfo → Outcome
  unchanged : Outcome
  rar : SessionInfo → List AbonRule → List AbonRule → List ℕ → Outcome

-- The loop that looks for a rule with monitoring keys, from the flag that is passed in.
unfoldable has_keys : List AbonRule → Bool
has_keys [] = false
has_keys (r ∷ rs) = elim r.monit_key [ [] ↦ has_keys rs | _ ∷ _ ↦ true ]

-- The switches on the dialect that fill the list of triggers.
unfoldable pub event_triggers : ℕ → Bool → List ℕ
event_triggers dialect installed =
    (if dialect == gx_hw_ugw || dialect == gx_ericssn then 2 ∷ 101 ∷ 13 ∷ 0 ∷ [] else [])
    ++ (if installed
        then (if dialect == gx_hw_ugw || dialect == gx_procera || dialect == gx_ericssn
            then 33 ∷ []
            else if dialect == gx_cisco_sce
            then 26 ∷ []
            else [])
        else [])

-- What the function reads; `names` is what pcrf_db_load_abon_rule_list returns for a session.
pub record World : Type 0 where
  pub store : Store
  pub peers : List PeerInfo
  pub rules : SessRules
  pub rule_map : RuleMap
  pub names : SessionInfo → RequestInfo → List Text

abbrev or_req : RequestInfo → Option RequestInfo → RequestInfo
or_req req none = req
or_req req (some r) = r

-- For a Procera session, what is missing is taken from the session of the gateway.
unfoldable add_core_session : SessionInfo → RequestInfo → World → SessionInfo × RequestInfo
unfolding or_info
add_core_session info req w =
    let (code, core) =
      find_core_sess_byframedip info.framed_ip_address.v new_session_info w.store in
    let g = get core.session_id (some info) (some req) none w.store in
    if info.peer_dialect == gx_procera
    then (if code == 0 then (or_info info g.info, or_req req g.req) else (info, req))
    else (info, req)

-- The rules of the profile: those of Procera are put into the list that
-- pcrf_server_create_abon_rule_list is given.
unfoldable pub profile_rules : SessionInfo → RequestInfo → World → List AbonRule
profile_rules info req w =
    let place = req.user_environment.usr_loc in
    create_abon_rule_list w.rule_map (w.names info req) info.peer_dialect (
      if info.peer_dialect == gx_procera
      then additional_rules info.imei info.called_station_id place.ecgi place.cgi []
      else [])

-- The session from the comparison of its rules on: the outcome and bMKInstalled. The monitoring
-- data that are read for the request are left out.
unfoldable pub apply_rules : List AbonRule → SessionInfo → Bool → World → Outcome × Bool
unfolding has_keys event_triggers
apply_rules [] info installed w = (release info, installed)
apply_rules (r ∷ rs) info installed w =
    let active = (get_rules info.session_id [] w.rules).1 in
    let marked = select_notrelevant_active (r ∷ rs) active in
    let keyed = installed || has_keys marked.0 in
    if is_any_changes marked.1 marked.0 == 0
    then (unchanged, installed)
    else (rar info marked.1 marked.0 (event_triggers info.peer_dialect keyed), keyed)

unfoldable pub choose_rules : SessionInfo → RequestInfo → Bool → World → Outcome × Bool
unfolding profile_rules apply_rules
choose_rules info req installed w = apply_rules (profile_rules info req w) info installed w

-- The body of the loop for one session.
unfoldable operate_session : Text → OtlText → Bool → World → Outcome × Bool
unfolding add_core_session choose_rules or_info
operate_session sid action installed w =
    let g =
      get sid (some (record new_session_info { session_id = sid })) (some new_request_info) none
        w.store in
    let (code, info) = peer_dialect w.peers (or_info new_session_info g.info) in
    let (full, req) = add_core_session info (or_req new_request_info g.req) w in
    if not (g.code == 0)
    then (skipped, installed)
    else if not (code == 0)
    then (skipped, installed)
    else if peer_is_connected w.peers full == 0
    then (not_connected, installed)
    else if not action.is_null && text_eq action.v (bytes "abort_session")
    then (release full, installed)
    else choose_rules full req installed w

-- The loop over the sessions of a record: the outcomes, and the result, which is ENOTCONN where
-- the loop is broken off.
unfoldable operate_sessions : List Text → OtlText → Bool → World → List Outcome × Bool
unfolding operate_session
operate_sessions [] action installed w = ([], true)
operate_sessions (sid ∷ sids) action installed w =
    let now = operate_session sid action installed w in
    let rest = operate_sessions sids action now.1 w in
    elim now.0 [ not_connected ↦ (not_connected ∷ [], false) | o ↦ (o ∷ rest.0, rest.1) ]
