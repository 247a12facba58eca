-- ===== src/Peer.antt =====
-- src/pcrf_peer.cpp: the list of known peers, its validation callback and the dialect queries.
pub mod Agreement
pub mod Validation
use pcrf.Common.{ℕ, Bool, true, false, ◌&&◌, not, List, [], ◌∷◌, ◌++◌, map, ◌==◌, if◌then◌else◌}
use pcrf.Common.Text.{Text, text_eq}
use pcrf.Common.Lists.{length}
use pcrf.Types.{OtlValue, OtlText, to_otl, SessionInfo, gx_undef, enodata}

-- SPeerInfo.
pub record PeerInfo : Type 0 where
  pub host_name : OtlText
  pub host_real : OtlText
  pub peer_dialect : ℕ
  pub is_connected : ℕ

-- A row of ps.peer, as the query returns it.
pub record PeerRow : Type 0 where
  pub host_name : OtlText
  pub realm : OtlText
  pub protocol_id : OtlValue ℕ

-- One round of the fetch loop of app_pcrf_load_peer_info.
unfoldable peer_of_row : PeerRow → PeerInfo
peer_of_row r = record {
  host_name = if r.host_name.is_null then to_otl [] else r.host_name;
  host_real = if r.realm.is_null then to_otl [] else r.realm;
  peer_dialect = if r.protocol_id.is_null then gx_undef else r.protocol_id.v;
  is_connected = 0;
}

-- The fetch loop, over the rows that the query returns.
unfoldable load_peer_info : List PeerInfo → List PeerRow → List PeerInfo
unfolding peer_of_row
load_peer_info peers rows = peers ++ map peer_of_row rows

-- What app_pcrf_peer_validate reads of the freeDiameter peer_info.
pub record DiamPeer : Type 0 where
  pub diamid : Text
  pub realm : Text

-- app_pcrf_peer_compare; `true` stands for the result 0. The texts are compared by length, then
-- by memcmp.
unfoldable pub peer_compare : DiamPeer → PeerInfo → Bool
peer_compare left right =
    if not (length left.diamid == length right.host_name.v)
    then false
    else if not (text_eq left.diamid right.host_name.v)
    then false
    else if not (length left.realm == length right.host_real.v)
    then false
    else text_eq left.realm right.host_real.v

-- The result of app_pcrf_peer_validate: *p_piAuth, whether pic_flags.sec was set to PI_SEC_NONE,
-- and g_vectPeerList.
pub record Validated : Type 0 where
  pub auth : ℕ
  pub sec_none : Bool
  pub peers : List PeerInfo

unfoldable keep_peer : PeerInfo → Validated → Validated
keep_peer p r = record r { peers = p ∷ r.peers }

unfoldable pub peer_validate : DiamPeer → List PeerInfo → Validated
unfolding peer_compare keep_peer
peer_validate left [] = record { auth = 0; sec_none = false; peers = [] }
peer_validate left (p ∷ ps) =
    let rest = keep_peer p (peer_validate left ps) in
    if peer_compare left p
    then record { auth = 1; sec_none = true; peers = record p { is_connected = 1 } ∷ ps }
    else rest

-- The test of the loops over g_vectPeerList.
unfoldable pub is_peer : PeerInfo → Text → Text → Bool
is_peer p host realm = text_eq p.host_name.v host && text_eq p.host_real.v realm

-- pcrf_peer_dialect: the result code and the session with its dialect.
unfoldable pub peer_dialect : List PeerInfo → SessionInfo → ℕ × SessionInfo
unfolding is_peer
peer_dialect [] s = (enodata, s)
peer_dialect (p ∷ ps) s =
    let rest = peer_dialect ps s in
    if is_peer p s.origin_host.v s.origin_realm.v
    then (0, record s { peer_dialect = p.peer_dialect })
    else rest

unfoldable pub peer_dialect_ret : List PeerInfo → Text → Text → ℕ
unfolding is_peer
peer_dialect_ret [] host realm = gx_undef
peer_dialect_ret (p ∷ ps) host realm =
    let rest = peer_dialect_ret ps host realm in
    if is_peer p host realm then p.peer_dialect else rest

-- pcrf_peer_is_connected, whose result is ENODATA for an unknown peer.
unfoldable pub peer_is_connected : List PeerInfo → SessionInfo → ℕ
unfolding is_peer
peer_is_connected [] s = enodata
peer_is_connected (p ∷ ps) s =
    let rest = peer_is_connected ps s in
    if is_peer p s.origin_host.v s.origin_realm.v then p.is_connected else rest

unfoldable pub peer_is_dialect_used : List PeerInfo → ℕ → ℕ
peer_is_dialect_used [] dialect = 0
peer_is_dialect_used (p ∷ ps) dialect =
    let rest = peer_is_dialect_used ps dialect in
    if p.peer_dialect == dialect && not (p.is_connected == 0) then 1 else rest
