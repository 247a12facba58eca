-- ===== src/Peer/Agreement.antt =====
-- The dialect queries of src/pcrf_peer.cpp, compared with one another.
use pcrf.Common.{◌≡◌, ◌⊎◌, List, [], ◌∷◌, arith}
use pcrf.Types.{SessionInfo, gx_undef, enodata}
use pcrf.Peer.{PeerInfo, peer_dialect, peer_dialect_ret, peer_is_connected}

-- pcrf_peer_dialect either finds the peer, and then it stores the dialect that
-- pcrf_peer_dialect_ret returns for the session's host and realm; or it returns ENODATA, leaves
-- the session as it was, pcrf_peer_dialect_ret returns GX_UNDEF, and pcrf_peer_is_connected
-- returns ENODATA.
pub peer_dialect-peer_dialect_ret :
    (ps : List PeerInfo) (s : SessionInfo)
    → ((peer_dialect ps s
          ≡ (0, record s { peer_dialect = peer_dialect_ret ps s.origin_host.v s.origin_realm.v }))
        ⊎ ((peer_dialect ps s ≡ (enodata, s))
            × (peer_dialect_ret ps s.origin_host.v s.origin_realm.v ≡ gx_undef)
            × (peer_is_connected ps s ≡ enodata)))
unfolding peer_dialect peer_dialect_ret peer_is_connected
peer_dialect-peer_dialect_ret [] s = ground arith
peer_dialect-peer_dialect_ret (p ∷ ps) s = ground (arith, peer_dialect-peer_dialect_ret ps s)
