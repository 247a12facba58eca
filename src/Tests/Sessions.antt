-- ===== src/Tests/Sessions.antt =====
-- The theorems on the session cache, its indexes, the peers and the tracer, at small inputs.
use pcrf.Common.{◌≡◌, refl, true, none, some, [], ◌∷◌, arith, ◌⊎◌}
use pcrf.Common.Text.{Text, bytes, text_eq}
use pcrf.Common.Lists.{contains, count}
use pcrf.Common.Map.{find, assign, insert, erase}
use pcrf.Types.{
  SessionCache, SessionInfo, new_session_cache, new_session_info, to_otl, gx_ericssn, enodata,
}
use pcrf.Session.FramedIp
use pcrf.Session.Subscribers
use pcrf.Session.Links.{
  Links, mk_link2parent, link_child, mk_parent2child, get_linked_child_session_list,
}
use pcrf.Session.Links.Consistency.{IsConsistent, children, has_parent, mk_link2parent-IsConsistent}
use pcrf.Session.Links.Copies.{count-mk_link2parent}
use pcrf.Session.Store.{Store, insert_local, remove_local, is_core_dialect, index_session}
use pcrf.Session.Store.Insertion.{find-insert_local}
use pcrf.Session.Store.Lifecycle.{by_ip, remove_local-insert_local}
use pcrf.Session.Store.Indexed.{IsIndexed, insert_local-IsIndexed}
use pcrf.Session.Store.Stale.{remove_local_stale}
use pcrf.Peer.{PeerInfo, peer_dialect, peer_dialect_ret, peer_is_connected}
use pcrf.Peer.Agreement.{peer_dialect-peer_dialect_ret}
use pcrf.Tracer
use pcrf.Tracer.{Tracer, check_session_by_condition, is_need_dump, reset_condition}
use pcrf.Tracer.Conditions.{is_set-reset_condition, is_set}

abbrev gx_id : Text
gx_id = bytes "gx;1"

abbrev rx_id : Text
rx_id = bytes "rx;2"

abbrev first_cache : SessionCache
first_cache = record new_session_cache {
  subscriber_id = to_otl (bytes "42");
  framed_ip_addr = to_otl (bytes "10.0.0.1");
  origin_host = to_otl (bytes "ugw");
  origin_realm = to_otl (bytes "net");
}

abbrev moved_cache : SessionCache
moved_cache = record first_cache { framed_ip_addr = to_otl (bytes "10.0.0.2") }

abbrev empty_links : Links
empty_links = record { parent = []; child = [] }

abbrev empty_store : Store
empty_store = record { sessions = []; framed_ip = []; links = empty_links; subscribers = [] }

abbrev one_store : Store
one_store = insert_local gx_id first_cache none gx_ericssn empty_store

empty-IsConsistent : IsConsistent empty_links
unfolding get_linked_child_session_list find contains
empty-IsConsistent par sid = refl

empty-IsIndexed : IsIndexed empty_store
unfolding FramedIp.get_session_list Subscribers.get_subscriber_session_id find contains
empty-IsIndexed = record {
  addresses = λ ip sid h. ground arith;
  subscribers = λ sub sid h. ground arith;
  linked = empty-IsConsistent;
}

find-insert_local_example : find gx_id one_store.sessions ≡ some first_cache
unfolding find text_eq
find-insert_local_example = find-insert_local gx_id first_cache none gx_ericssn gx_id empty_store

remove_local-insert_local_example : (remove_local gx_id one_store).0 ≡ 0
unfolding find
remove_local-insert_local_example =
    (remove_local-insert_local gx_id first_cache none gx_ericssn empty_store refl).0

insert_local-IsIndexed_example : IsIndexed one_store
unfolding find
insert_local-IsIndexed_example =
    insert_local-IsIndexed gx_id first_cache none gx_ericssn empty_store empty-IsIndexed
      (λ present. elim (present refl) [ ])

remove_local_stale_example :
    by_ip
      (bytes "10.0.0.1")
      gx_id
      (remove_local gx_id (insert_local gx_id moved_cache none gx_ericssn one_store)).1
    ≡ true
unfolding find text_eq insert_local index_session is_core_dialect insert assign erase
    FramedIp.insert_session FramedIp.get_session_list contains
remove_local_stale_example =
    (remove_local_stale gx_id moved_cache first_cache none gx_ericssn one_store refl refl refl).1

abbrev one_link : Links
one_link = mk_link2parent rx_id (some gx_id) empty_links

mk_link2parent-IsConsistent_example : has_parent rx_id gx_id one_link ≡ true
unfolding text_eq
mk_link2parent-IsConsistent_example =
    (mk_link2parent-IsConsistent rx_id gx_id empty_links empty-IsConsistent).1 rx_id gx_id

count-mk_link2parent_example :
    count rx_id (children gx_id (mk_link2parent rx_id (some gx_id) one_link)) ≡ 2
unfolding count text_eq find mk_link2parent link_child mk_parent2child insert assign erase
    get_linked_child_session_list
count-mk_link2parent_example = count-mk_link2parent rx_id gx_id one_link

abbrev ugw : PeerInfo
ugw = record {
  host_name = to_otl (bytes "ugw");
  host_real = to_otl (bytes "net");
  peer_dialect = gx_ericssn;
  is_connected = 0;
}

abbrev ugw_session : SessionInfo
ugw_session = record new_session_info {
  origin_host = to_otl (bytes "ugw");
  origin_realm = to_otl (bytes "net");
}

peer_dialect-peer_dialect_ret_example :
    (peer_dialect (ugw ∷ []) ugw_session ≡ (
      0,
      record ugw_session { peer_dialect = peer_dialect_ret (ugw ∷ []) (bytes "ugw") (bytes "net") },
    ))
    ⊎ ((peer_dialect (ugw ∷ []) ugw_session ≡ (enodata, ugw_session))
        × (peer_dialect_ret (ugw ∷ []) (bytes "ugw") (bytes "net") ≡ 0)
        × (peer_is_connected (ugw ∷ []) ugw_session ≡ enodata))
peer_dialect-peer_dialect_ret_example = peer_dialect-peer_dialect_ret (ugw ∷ []) ugw_session

abbrev apn_tracer : Tracer
apn_tracer = record {
  session_ids = [];
  application_ids = [];
  imsis = [];
  e164s = [];
  apns = bytes "internet" ∷ [];
}

is_set-reset_condition_example :
    is_set
      (Tracer.apn (bytes "internet"))
      (reset_condition (Tracer.apn (bytes "internet")) apn_tracer)
    ≡ true
is_set-reset_condition_example = is_set-reset_condition (Tracer.apn (bytes "internet")) apn_tracer
