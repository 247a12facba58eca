-- ===== src/Rules/Actions.antt =====
-- What a Gx request asks the server to do: pcrf_server_determine_action_set of
-- src/pcrf_server.cpp.
pub mod Bits
use pcrf.Common.{
  ℕ, ◌≡◌, refl, Bool, true, false, not, ◌&&◌, ◌||◌, List, [], ◌∷◌, ◌==◌, if◌then◌else◌, arith,
  Bool-cases, inl, inr,
}
use pcrf.Types.{
  OtlValue, SessionInfo, RequestInfo, SessionUsageInfo, gx_hw_ugw, gx_cisco_sce, gx_procera,
  gx_ericssn, initial_request, termination_request,
}
use pcrf.Peer.{PeerInfo, peer_is_dialect_used}

-- The unsigned of the ACTION_ bits, a member for each bit.
pub record ActionSet : Type 0 where
  pub copy_defbearer : Bool
  pub update_sessioncache : Bool
  pub operate_rule : Bool
  pub update_quota : Bool
  pub ugw_store_thet_info : Bool
  pub procera_store_thet_info : Bool
  pub procera_change_uli : Bool

abbrev pub no_action : ActionSet
no_action = record {
  copy_defbearer = false;
  update_sessioncache = false;
  operate_rule = false;
  update_quota = false;
  ugw_store_thet_info = false;
  procera_store_thet_info = false;
  procera_change_uli = false;
}

-- case GX_HW_UGW: case GX_ERICSSN.
unfoldable pub is_ipcan_dialect : ℕ → Bool
is_ipcan_dialect dialect = (dialect == gx_hw_ugw) || (dialect == gx_ericssn)

-- SGSN_CHANGE and USER_LOCATION_CHANGE; `used` is pcrf_peer_is_dialect_used( GX_PROCERA ).
unfoldable location_action : ℕ → ℕ → ActionSet → ActionSet
unfolding is_ipcan_dialect
location_action dialect used a =
    let updated = record a { update_sessioncache = true } in
    if is_ipcan_dialect dialect && not (used == 0)
    then record updated { procera_change_uli = true }
    else updated

-- The switch on one Event-Trigger.
unfoldable pub trigger_action : ℕ → ℕ → ℕ → ActionSet → ActionSet
unfolding location_action
trigger_action dialect used t a =
    if t == 2
    then record a { update_sessioncache = true; operate_rule = true }
    else if t == 0
    then location_action dialect used a
    else if t == 13
    then location_action dialect used a
    else if t == 20
    then record a { copy_defbearer = true }
    else if t == 26
    then record a { update_quota = true }
    else if t == 33
    then record a { update_quota = true }
    else if t == 101
    then (if dialect == gx_hw_ugw then record a { ugw_store_thet_info = true } else a)
    else if t == 777
    then (if dialect == gx_procera then record a { procera_store_thet_info = true } else a)
    else a

-- The loop over the triggers.
unfoldable pub trigger_actions : ℕ → ℕ → List ℕ → ActionSet → ActionSet
unfolding trigger_action
trigger_actions dialect used [] a = a
trigger_actions dialect used (t ∷ ts) a =
    trigger_actions dialect used ts (trigger_action dialect used t a)

unfoldable is_nonzero : OtlValue ℕ → Bool
is_nonzero o = not o.is_null && not (o.v == 0)

-- The loop over the usage records.
unfoldable pub any_usage : List SessionUsageInfo → Bool
unfolding is_nonzero
any_usage [] = false
any_usage (u ∷ us) =
    (is_nonzero u.input_octets || is_nonzero u.output_octets || is_nonzero u.total_octets)
    || any_usage us

-- pcrf_server_determine_action_set.
unfoldable pub determine_action_set : List PeerInfo → SessionInfo → RequestInfo → ActionSet
unfolding trigger_actions any_usage is_ipcan_dialect
determine_action_set peers s r =
    let by_trigger =
      trigger_actions s.peer_dialect (peer_is_dialect_used peers gx_procera) r.event_trigger
        no_action in
    let by_usage =
      if (s.peer_dialect == gx_ericssn)
        && (r.cc_request_type == termination_request)
        && any_usage r.usage_info
      then record by_trigger { update_quota = true }
      else by_trigger in
    let by_type =
      if r.cc_request_type == initial_request
      then record by_usage { operate_rule = true }
      else by_usage in
    if not (s.peer_dialect == gx_hw_ugw) && not (s.peer_dialect == gx_ericssn)
    then record by_type { operate_rule = true }
    else by_type
