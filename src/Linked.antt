-- ===== src/Linked.antt =====
-- What follows from the end of a session, or from a report on its rules, for the sessions linked
-- to it: src/pcrf_linked_session.cpp.
pub mod Reuse
use pcrf.Common.{ℕ, Bool, true, false, Option, none, some, List, [], ◌∷◌, ◌++◌, ◌==◌, if◌then◌else◌}
use pcrf.Common.Text.{Text}
use pcrf.Types.{
  SessionInfo, RequestInfo, OtlText, einval, gx_procera, rx_ims, new_session_info, new_request_info,
}
use pcrf.Peer.{PeerInfo, peer_dialect}
use pcrf.Session.Links.{get_linked_child_session_list}
use pcrf.Session.Subscribers.{get_subscriber_session_id}
use pcrf.Session.Store.{Store, get}

-- What is called for a linked session: pcrf_procera_terminate_session,
-- app_rx_operate_failed_bearer, app_rx_operate_failed_rule.
pub data Action : Type 0 where
  procera_terminate : Text → Action
  failed_bearer : SessionInfo → Action
  failed_rule : SessionInfo → Action

-- What an out-parameter holds after a call.
abbrev pub or_else : SessionInfo → Option SessionInfo → SessionInfo
or_else old none = old
or_else old (some info) = info

-- The body of the loops up to the switch, with `soSessionInfo`: the structure as it is left, and
-- whether the switch is come to.
unfoldable pub load_session : Store → List PeerInfo → Text → SessionInfo → SessionInfo × Bool
load_session s peers sid info =
    let g = get sid (some info) none none s in
    let info' = or_else info g.info in
    if g.code == 0
    then (let (code, dialected) = peer_dialect peers info' in (dialected, code == 0))
    else (info', false)

-- The switch of pcrf_linked_session_terminate.
unfoldable pub terminate_one : Text → SessionInfo → List Action
terminate_one sid info =
    if info.peer_dialect == gx_procera
    then procera_terminate sid ∷ []
    else if info.peer_dialect == rx_ims
    then failed_bearer info ∷ []
    else []

-- The switch of pcrf_linked_session_rule_report.
unfoldable pub report_one : Text → SessionInfo → List Action
report_one sid info = if info.peer_dialect == rx_ims then failed_rule info ∷ [] else []

-- The loops: one structure for all sessions, which each one fills further.
unfoldable pub walk :
    (Text → SessionInfo → List Action)
    → Store
    → List PeerInfo
    → List Text
    → SessionInfo
    → List Action
walk one s peers [] info = []
walk one s peers (sid ∷ sids) info =
    let (info', is_known) = load_session s peers sid info in
    let rest = walk one s peers sids info' in if is_known then one sid info' ++ rest else rest

-- pcrf_linked_session_terminate and pcrf_linked_session_rule_report.
unfoldable pub walk_linked :
    (Text → SessionInfo → List Action) → Store → List PeerInfo → Text → List Action
unfolding walk
walk_linked one s peers ipcan =
    let (code, children) = get_linked_child_session_list ipcan [] s.links in
    if code == 0 then walk one s peers children new_session_info else []

unfoldable pub linked_session_terminate : Store → List PeerInfo → Text → List Action
unfolding walk_linked terminate_one
linked_session_terminate = walk_linked terminate_one

unfoldable pub linked_session_rule_report : Store → List PeerInfo → Text → List Action
unfolding walk_linked report_one
linked_session_rule_report = walk_linked report_one
