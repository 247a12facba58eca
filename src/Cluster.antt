-- ===== src/Cluster.antt =====
-- The operations of src/pcrf_session_cache.cpp that act on every node of a cluster: each changes
-- the local cache and sends the command of src/pcrf_ipc.cpp to the other nodes.
pub mod Agreement
use pcrf.Common.{ℕ, Option, none, some, List, [], ◌∷◌, if◌then◌else◌}
use pcrf.Common.Text.{Text}
use pcrf.Types.{SessionInfo, RequestInfo}
use pcrf.Peer.{peer_dialect_ret}
use pcrf.RuleCache.{remove_sess_local}
use pcrf.Session.Store.{cache_of, insert_local, remove_local}
use pcrf.Ipc.Codes.{Codes, PsPacket}
use pcrf.Ipc.Pack.{cmd2remote}
use pcrf.Ipc.Process.{Node, is_nil}

module _ (p : PsPacket) (k : Codes) (nodes : List (Option ℕ)) where
  -- pcrf_session_cache_insert: the node, and the datagrams that are sent.
  unfoldable pub session_cache_insert :
      Text → SessionInfo → Option RequestInfo → Option Text → Node → Node × List (ℕ × Text)
  session_cache_insert sid info req par n = if is_nil sid then (n, []) else (
    record n {
      store =
          insert_local sid (cache_of info req) par
            (peer_dialect_ret n.peers info.origin_host.v info.origin_realm.v) n.store;
    },
    cmd2remote p k nodes sid (some (cache_of info req)) k.cmd_insert_session par,
  )

  -- pcrf_session_cache_remove.
  unfoldable pub session_cache_remove : Text → Node → Node × List (ℕ × Text)
  session_cache_remove sid n = (
    record n { store = (remove_local sid n.store).1; rules = remove_sess_local sid n.rules },
    cmd2remote p k nodes sid none k.cmd_remove_session none,
  )
