-- ===== src/Peer/Validation.antt =====
-- What app_pcrf_peer_validate of src/pcrf_peer.cpp does to the queries over the peer list.
use pcrf.Common.{◌≡◌, ◌⊎◌, ap, List, [], ◌∷◌, arith}
use pcrf.Common.Text.{text_eq_iff}
use pcrf.Common.Lists.{length}
use pcrf.Types.{SessionInfo, enodata}
use pcrf.Peer.{
  PeerInfo, DiamPeer, Validated, is_peer, peer_compare, peer_validate, peer_dialect_ret,
  peer_is_connected, peer_is_dialect_used,
}

-- The length tests of app_pcrf_peer_compare change nothing: it accepts the entry whose host and
-- realm are those of the peer.
peer_compare-is_peer :
    (left : DiamPeer) (p : PeerInfo) → peer_compare left p ≡ is_peer p left.diamid left.realm
unfolding peer_compare is_peer
peer_compare-is_peer left p = ground (
  arith,
  text_eq_iff left.diamid p.host_name.v,
  text_eq_iff p.host_name.v left.diamid,
  text_eq_iff left.realm p.host_real.v,
  text_eq_iff p.host_real.v left.realm,
  λ (e : left.diamid ≡ p.host_name.v). ap length e,
  λ (e : left.realm ≡ p.host_real.v). ap length e,
)

-- Accepted and connected, or refused and unknown.
abbrev Connects : List PeerInfo → SessionInfo → Validated → Type 0
Connects ps s r =
    ((r.auth ≡ 1)
      × (peer_is_connected r.peers s ≡ 1)
      × (peer_is_dialect_used r.peers (peer_dialect_ret ps s.origin_host.v s.origin_realm.v) ≡ 1))
    ⊎ ((r.auth ≡ 0) × (r.peers ≡ ps) × (peer_is_connected ps s ≡ enodata))

-- For a session whose host and realm are those of the peer that freeDiameter asks about: either
-- the peer is accepted, its entry is then connected, and the dialect of the session is in use; or
-- it is refused, the list is as it was, and the peer of the session is unknown.
validate-Connects :
    (left : DiamPeer) (ps : List PeerInfo) (s : SessionInfo)
    → s.origin_host.v ≡ left.diamid
    → s.origin_realm.v ≡ left.realm
    → Connects ps s (peer_validate left ps)
unfolding peer_validate peer_is_connected peer_dialect_ret peer_is_dialect_used is_peer
validate-Connects left [] s h k = ground arith
validate-Connects left (p ∷ ps) s h k =
    ground (arith, peer_compare-is_peer left p, validate-Connects left ps s h k)
