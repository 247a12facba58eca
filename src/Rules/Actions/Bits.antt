-- ===== src/Rules/Actions/Bits.antt =====
-- Which triggers, dialects and request types set each bit of pcrf_server_determine_action_set in
-- src/pcrf_server.cpp.
use pcrf.Common.{ℕ, ◌≡◌, Bool, false, not, ◌&&◌, ◌||◌, List, [], ◌∷◌, ◌==◌, arith}
use pcrf.Types.{
  SessionInfo, RequestInfo, gx_hw_ugw, gx_procera, gx_ericssn, initial_request, termination_request,
}
use pcrf.Peer.{PeerInfo, peer_is_dialect_used}
use pcrf.Rules.Actions.{
  ActionSet, no_action, is_ipcan_dialect, trigger_action, trigger_actions, any_usage,
  determine_action_set,
}

-- Whether a trigger is in a list.
unfoldable pub has_trigger : ℕ → List ℕ → Bool
has_trigger t [] = false
has_trigger t (x ∷ xs) = (x == t) || has_trigger t xs

module _ (dialect used : ℕ) where
  copy_defbearer-trigger_action :
      (t : ℕ) (a : ActionSet)
      → (trigger_action dialect used t a).copy_defbearer
        ≡ (a.copy_defbearer || has_trigger 20 (t ∷ []))
  unfolding trigger_action has_trigger
  copy_defbearer-trigger_action t a = ground arith

  copy_defbearer-trigger_actions :
      (ts : List ℕ) (a : ActionSet)
      → (trigger_actions dialect used ts a).copy_defbearer ≡ (a.copy_defbearer || has_trigger 20 ts)
  unfolding trigger_actions has_trigger
  copy_defbearer-trigger_actions [] a = ground arith
  copy_defbearer-trigger_actions (t ∷ ts) a =
      rw
        (
          copy_defbearer-trigger_actions ts (trigger_action dialect used t a),
          copy_defbearer-trigger_action t a,
        )
        (ground arith)

  update_sessioncache-trigger_action :
      (t : ℕ) (a : ActionSet)
      → (trigger_action dialect used t a).update_sessioncache ≡ (
          a.update_sessioncache
          || (has_trigger 2 (t ∷ []) || has_trigger 0 (t ∷ []) || has_trigger 13 (t ∷ [])))
  unfolding trigger_action has_trigger
  update_sessioncache-trigger_action t a = ground arith

  update_sessioncache-trigger_actions :
      (ts : List ℕ) (a : ActionSet)
      → (trigger_actions dialect used ts a).update_sessioncache
        ≡ (a.update_sessioncache || (has_trigger 2 ts || has_trigger 0 ts || has_trigger 13 ts))
  unfolding trigger_actions has_trigger
  update_sessioncache-trigger_actions [] a = ground arith
  update_sessioncache-trigger_actions (t ∷ ts) a =
      rw
        (
          update_sessioncache-trigger_actions ts (trigger_action dialect used t a),
          update_sessioncache-trigger_action t a,
        )
        (ground arith)

  operate_rule-trigger_action :
      (t : ℕ) (a : ActionSet)
      → (trigger_action dialect used t a).operate_rule ≡ (a.operate_rule || has_trigger 2 (t ∷ []))
  unfolding trigger_action has_trigger
  operate_rule-trigger_action t a = ground arith

  operate_rule-trigger_actions :
      (ts : List ℕ) (a : ActionSet)
      → (trigger_actions dialect used ts a).operate_rule ≡ (a.operate_rule || has_trigger 2 ts)
  unfolding trigger_actions has_trigger
  operate_rule-trigger_actions [] a = ground arith
  operate_rule-trigger_actions (t ∷ ts) a =
      rw
        (
          operate_rule-trigger_actions ts (trigger_action dialect used t a),
          operate_rule-trigger_action t a,
        )
        (ground arith)

  update_quota-trigger_action :
      (t : ℕ) (a : ActionSet)
      → (trigger_action dialect used t a).update_quota
        ≡ (a.update_quota || (has_trigger 26 (t ∷ []) || has_trigger 33 (t ∷ [])))
  unfolding trigger_action has_trigger
  update_quota-trigger_action t a = ground arith

  update_quota-trigger_actions :
      (ts : List ℕ) (a : ActionSet)
      → (trigger_actions dialect used ts a).update_quota
        ≡ (a.update_quota || (has_trigger 26 ts || has_trigger 33 ts))
  unfolding trigger_actions has_trigger
  update_quota-trigger_actions [] a = ground arith
  update_quota-trigger_actions (t ∷ ts) a =
      rw
        (
          update_quota-trigger_actions ts (trigger_action dialect used t a),
          update_quota-trigger_action t a,
        )
        (ground arith)

  ugw_store_thet_info-trigger_action :
      (t : ℕ) (a : ActionSet)
      → (trigger_action dialect used t a).ugw_store_thet_info
        ≡ (a.ugw_store_thet_info || ((dialect == gx_hw_ugw) && has_trigger 101 (t ∷ [])))
  unfolding trigger_action has_trigger
  ugw_store_thet_info-trigger_action t a = ground arith

  ugw_store_thet_info-trigger_actions :
      (ts : List ℕ) (a : ActionSet)
      → (trigger_actions dialect used ts a).ugw_store_thet_info
        ≡ (a.ugw_store_thet_info || ((dialect == gx_hw_ugw) && has_trigger 101 ts))
  unfolding trigger_actions has_trigger
  ugw_store_thet_info-trigger_actions [] a = ground arith
  ugw_store_thet_info-trigger_actions (t ∷ ts) a =
      rw
        (
          ugw_store_thet_info-trigger_actions ts (trigger_action dialect used t a),
          ugw_store_thet_info-trigger_action t a,
        )
        (ground arith)

  procera_store_thet_info-trigger_action :
      (t : ℕ) (a : ActionSet)
      → (trigger_action dialect used t a).procera_store_thet_info
        ≡ (a.procera_store_thet_info || ((dialect == gx_procera) && has_trigger 777 (t ∷ [])))
  unfolding trigger_action has_trigger
  procera_store_thet_info-trigger_action t a = ground arith

  procera_store_thet_info-trigger_actions :
      (ts : List ℕ) (a : ActionSet)
      → (trigger_actions dialect used ts a).procera_store_thet_info
        ≡ (a.procera_store_thet_info || ((dialect == gx_procera) && has_trigger 777 ts))
  unfolding trigger_actions has_trigger
  procera_store_thet_info-trigger_actions [] a = ground arith
  procera_store_thet_info-trigger_actions (t ∷ ts) a =
      rw
        (
          procera_store_thet_info-trigger_actions ts (trigger_action dialect used t a),
          procera_store_thet_info-trigger_action t a,
        )
        (ground arith)

  procera_change_uli-trigger_action :
      (t : ℕ) (a : ActionSet)
      → (trigger_action dialect used t a).procera_change_uli ≡ (
          a.procera_change_uli
          || (is_ipcan_dialect dialect
              && not (used == 0)
              && (has_trigger 0 (t ∷ []) || has_trigger 13 (t ∷ []))))
  unfolding trigger_action has_trigger
  procera_change_uli-trigger_action t a = ground arith

  procera_change_uli-trigger_actions :
      (ts : List ℕ) (a : ActionSet)
      → (trigger_actions dialect used ts a).procera_change_uli ≡ (
          a.procera_change_uli
          || (is_ipcan_dialect dialect
              && not (used == 0)
              && (has_trigger 0 ts || has_trigger 13 ts)))
  unfolding trigger_actions has_trigger
  procera_change_uli-trigger_actions [] a = ground arith
  procera_change_uli-trigger_actions (t ∷ ts) a =
      rw
        (
          procera_change_uli-trigger_actions ts (trigger_action dialect used t a),
          procera_change_uli-trigger_action t a,
        )
        (ground arith)

-- The actions of a request, bit by bit, for its triggers in any order: the session cache is
-- updated on RAT_CHANGE, SGSN_CHANGE and USER_LOCATION_CHANGE; rules are operated on RAT_CHANGE,
-- on an initial request and for every dialect but GX_HW_UGW and GX_ERICSSN; the quota is updated
-- on USAGE_REPORT, and on a termination request of GX_ERICSSN that reports usage; the other bits
-- depend on their trigger and dialect, and on a connected Procera peer.
pub determine_action_set-bits :
    (peers : List PeerInfo) (s : SessionInfo) (r : RequestInfo)
    → ((determine_action_set peers s r).copy_defbearer ≡ has_trigger 20 r.event_trigger)
      × ((determine_action_set peers s r).update_sessioncache ≡ (
          has_trigger 2 r.event_trigger
          || has_trigger 0 r.event_trigger
          || has_trigger 13 r.event_trigger))
      × ((determine_action_set peers s r).operate_rule ≡ (
          has_trigger 2 r.event_trigger
          || (r.cc_request_type == initial_request)
          || not (is_ipcan_dialect s.peer_dialect)))
      × ((determine_action_set peers s r).update_quota ≡ (
          (has_trigger 26 r.event_trigger || has_trigger 33 r.event_trigger)
          || ((s.peer_dialect == gx_ericssn)
              && (r.cc_request_type == termination_request)
              && any_usage r.usage_info)))
      × ((determine_action_set peers s r).ugw_store_thet_info
          ≡ ((s.peer_dialect == gx_hw_ugw) && has_trigger 101 r.event_trigger))
      × ((determine_action_set peers s r).procera_store_thet_info
          ≡ ((s.peer_dialect == gx_procera) && has_trigger 777 r.event_trigger))
      × ((determine_action_set peers s r).procera_change_uli ≡ (
          is_ipcan_dialect s.peer_dialect
          && not (peer_is_dialect_used peers gx_procera == 0)
          && (has_trigger 0 r.event_trigger || has_trigger 13 r.event_trigger)))
unfolding determine_action_set is_ipcan_dialect
determine_action_set-bits peers s r =
    let d = s.peer_dialect in
    let used = peer_is_dialect_used peers gx_procera in
    let ts = r.event_trigger in
    (
      ground (arith, copy_defbearer-trigger_actions d used ts no_action),
      ground (arith, update_sessioncache-trigger_actions d used ts no_action),
      ground (arith, operate_rule-trigger_actions d used ts no_action),
      ground (arith, update_quota-trigger_actions d used ts no_action),
      ground (arith, ugw_store_thet_info-trigger_actions d used ts no_action),
      ground (arith, procera_store_thet_info-trigger_actions d used ts no_action),
      ground (arith, procera_change_uli-trigger_actions d used ts no_action),
    )
