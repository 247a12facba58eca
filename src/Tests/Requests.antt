-- ===== src/Tests/Requests.antt =====
-- The theorems on the credit control requests of src/pcrf_server.cpp, where a gateway, a Procera
-- and their sessions are known.
use pcrf.Common.{ℕ, ◌≡◌, refl, true, false, none, []}
use pcrf.Common.Text.{Text, bytes, text_eq}
use pcrf.Common.Map.{find, insert}
use pcrf.Types.{
  SessionInfo, RequestInfo, SessionCache, new_session_info, new_request_info, new_session_cache,
  to_otl, gx_ericssn, gx_procera, initial_request, termination_request,
}
use pcrf.Rules.Actions.{no_action}
use pcrf.Subscribers.Lookup.{no_maps}
use pcrf.Common.Lists.{contains}
use pcrf.Session.Links.{get_linked_child_session_list, mk_link2parent}
use pcrf.Session.Links.Consistency.{has_child, IsConsistent}
use pcrf.Session.Store.{insert_local, index_session, is_core_dialect}
use pcrf.Ipc.Process.{Node}
use pcrf.Gx.{Ccr, switch_request, ccr_cb}
use pcrf.Gx.Lifetime.{find-ccr_cb}
use pcrf.Gx.Core.{initial-procera}
use pcrf.Tests.Packets.{codes, packets}

abbrev pub gx_id : Text
gx_id = bytes "gx;1"

abbrev px_id : Text
px_id = bytes "px;1"

abbrev cached : SessionCache
cached = record new_session_cache {
  subscriber_id = to_otl (bytes "42");
  framed_ip_addr = to_otl (bytes "10.0.0.1");
}

abbrev empty_node : Node
empty_node = record {
  store = record {
    sessions = [];
    framed_ip = [];
    links = record { parent = []; child = [] };
    subscribers = [];
  };
  rules = [];
  peers = [];
  tracer = record { session_ids = []; application_ids = []; imsis = []; e164s = []; apns = [] };
}

abbrev pub core_node : Node
core_node = record empty_node { store = insert_local gx_id cached none gx_ericssn empty_node.store }

abbrev request : ℕ → RequestInfo
request type = record new_request_info { cc_request_type = type }

abbrev gx_info : SessionInfo
gx_info = record new_session_info { session_id = gx_id }

abbrev ccr : ℕ → SessionInfo → Ccr
ccr type info = record {
  info = info;
  req = request type;
  action_set = no_action;
  result_code = 2001;
  ipcan_session_id = none;
  sess_should_be_term = none;
  calls = [];
  refresh_queue = [];
}

abbrev px_ccr : Ccr
px_ccr = ccr initial_request (record new_session_info {
  peer_dialect = gx_procera;
  session_id = px_id;
  framed_ip_address = to_otl (bytes "10.0.0.1");
})

find-ccr_cb_example :
    find gx_id
      (ccr_cb packets codes [] no_maps false true true gx_info
        (request termination_request)
        []
        core_node).1.0.store.sessions
    ≡ none
find-ccr_cb_example =
    find-ccr_cb packets codes [] no_maps false true true gx_info (request termination_request) []
      core_node refl

core_node-IsConsistent : IsConsistent core_node.store.links
unfolding find get_linked_child_session_list contains insert_local index_session mk_link2parent
core_node-IsConsistent par sid = refl

initial-procera_example :
    has_child gx_id px_id
      (switch_request packets codes [] no_maps false px_ccr core_node).1.0.store.links
    ≡ true
unfolding find is_core_dialect insert_local index_session mk_link2parent insert text_eq
initial-procera_example =
    (initial-procera packets codes [] no_maps false px_ccr gx_id cached none gx_ericssn empty_node
      refl refl refl refl refl refl refl core_node-IsConsistent).1
