-- ===== src/Gx/Core.antt =====
-- The core session (of an UGW or an Ericsson PGW) that a request of a Procera
-- refers to: app_pcrf_ccr_cb of src/pcrf_server.cpp.
use pcrf.Common.{
  ℕ, ◌≡◌, refl, ap, ◌∙◌, subst, sym, Bool, true, false, Option, none, some, List, arith,
}
use pcrf.Common.Text.{Text, text_eq_refl}
use pcrf.Common.Map.{find}
use pcrf.Types.{
  SessionInfo, RequestInfo, SessionCache, new_session_info, gx_procera, initial_request,
}
use pcrf.Peer.{peer_dialect_ret}
use pcrf.Rules.Actions.{is_ipcan_dialect}
use pcrf.Subscribers.{SubscriptionMaps}
use pcrf.Session.Links.{mk_link2parent}
use pcrf.Session.Links.Consistency.{has_child, IsConsistent, mk_link2parent-IsConsistent}
use pcrf.Session.Store.{
  Store, get, cache_of, index_session, insert_local, is_core_dialect, fill_session_info,
  fill_request_info,
}
use pcrf.Session.Store.Insertion.{insert_local_new}
use pcrf.Session.Store.Search.{
  cached-insert_local, find_core_sess_byframedip, find_core_sess-insert_local,
}
use pcrf.Ipc.Codes.{Codes, PsPacket}
use pcrf.Ipc.Process.{Node, is_nil}
use pcrf.Cluster.{session_cache_insert}
use pcrf.Gx.{
  Ccr, get_into, attach_core, found_id, procera_core, initial, switch_request, user_unknown,
}
use pcrf.Gx.Kept.{session_id-fill_session_info}

-- The locals after the search for a core session that is cached.
abbrev with_core : Text → SessionCache → Ccr → Ccr
with_core core cached c = record c {
  info = fill_session_info core cached c.info;
  req = fill_request_info cached c.req;
  ipcan_session_id = some core;
}

attach_core-found :
    (missing : ℕ) (c : Ccr) (core : Text) (cached : SessionCache) (s : Store)
    → find core s.sessions ≡ some cached
    → attach_core missing c s (0, core) ≡ with_core core cached c
unfolding attach_core get_into get
attach_core-found missing c core cached s present = rw (attach_core, get_into, get, present) refl

procera_core-found :
    (missing : ℕ) (c : Ccr) (core : Text) (cached : SessionCache) (s : Store)
    → find_core_sess_byframedip c.info.framed_ip_address.v new_session_info s
      ≡ (0, fill_session_info core cached new_session_info)
    → find core s.sessions ≡ some cached
    → procera_core missing c s ≡ with_core core cached c
unfolding procera_core fill_session_info
procera_core-found missing c core cached s found present =
    ap (λ r. attach_core missing c s (found_id r)) found
    ∙ attach_core-found missing c core cached s present

initial_procera :
    (m : SubscriptionMaps) (c : Ccr) (s : Store)
    → c.info.peer_dialect ≡ gx_procera
    → initial m c s ≡ procera_core user_unknown c s
unfolding initial is_ipcan_dialect
initial_procera m c s h = rw (initial, h) refl

-- The links of the node after the insertion of a session that is new.
links-session_cache_insert :
    (p : PsPacket) (k : Codes) (nodes : List (Option ℕ)) (sid : Text) (info : SessionInfo)
    (req : Option RequestInfo) (par : Option Text) (n : Node)
    → is_nil sid ≡ false
    → find sid n.store.sessions ≡ none
    → (session_cache_insert p k nodes sid info req par n).0.store.links
      ≡ mk_link2parent sid par n.store.links
unfolding session_cache_insert index_session
links-session_cache_insert p k nodes sid info req par n named absent =
    rw (session_cache_insert, named)
      (ground (
        arith,
        insert_local_new sid (cache_of info req) par
            (peer_dialect_ret n.peers info.origin_host.v info.origin_realm.v) n.store absent,
      ))

linked :
    (sid par : Text) (n : Node)
    → IsConsistent n.store.links
    → has_child par sid (mk_link2parent sid (some par) n.store.links) ≡ true
linked sid par n h =
    let (consistent, own) = mk_link2parent-IsConsistent sid par n.store.links h in
    ground (arith, consistent par sid, own sid par, text_eq_refl sid, text_eq_refl par)

switch_initial :
    (p : PsPacket) (k : Codes) (nodes : List (Option ℕ)) (m : SubscriptionMaps)
    (generate_cdr : Bool) (c : Ccr) (n : Node)
    → c.req.cc_request_type ≡ initial_request
    → switch_request p k nodes m generate_cdr c n ≡ (
        let d = initial m c n.store in
        (
          d,
          session_cache_insert p k nodes d.info.session_id d.info (some d.req) d.ipcan_session_id n,
        ))
unfolding switch_request
switch_initial p k nodes m generate_cdr c n type = rw (switch_request, type) refl

-- The insertion from the locals makes the node list `sid` as a child of `core`.
abbrev Lists : PsPacket → Codes → List (Option ℕ) → Text → Text → Ccr → Node → Type 0
Lists p k nodes core sid d n =
    has_child core sid
      (session_cache_insert p k nodes d.info.session_id d.info (some d.req) d.ipcan_session_id
        n).0.store.links
    ≡ true

with_core-Lists :
    (p : PsPacket) (k : Codes) (nodes : List (Option ℕ)) (core : Text) (cached : SessionCache)
    (c : Ccr) (n : Node)
    → is_nil c.info.session_id ≡ false
    → find c.info.session_id n.store.sessions ≡ none
    → IsConsistent n.store.links
    → Lists p k nodes core c.info.session_id (with_core core cached c) n
with_core-Lists p k nodes core cached c n named unknown consistent =
    let d = with_core core cached c in
    let sid = c.info.session_id in
    subst
      (λ x.
        has_child core sid
          (session_cache_insert p k nodes x d.info (some d.req) (some core) n).0.store.links
        ≡ true)
      (sym (session_id-fill_session_info core cached c.info named))
      (subst (λ l. has_child core sid l ≡ true)
        (sym (
          links-session_cache_insert p k nodes sid d.info (some d.req) (some core) n named unknown))
        (linked sid core n consistent))

-- The initial request of a Procera session that has an identifier and is new to the node, under
-- the address of the core session that was inserted last, which was new too, where the link maps
-- agree: the locals are the ones before, completed from the record of the core session, which is
-- the parent; and the node lists the Procera session as a child of it.
pub initial-procera :
    (p : PsPacket) (k : Codes) (nodes : List (Option ℕ)) (m : SubscriptionMaps)
    (generate_cdr : Bool) (c : Ccr) (core : Text) (cached : SessionCache) (par : Option Text)
    (dialect : ℕ) (n : Node)
    → find core n.store.sessions ≡ none
    → is_core_dialect dialect ≡ true
    → c.req.cc_request_type ≡ initial_request
    → c.info.peer_dialect ≡ gx_procera
    → is_nil c.info.session_id ≡ false
    → c.info.framed_ip_address.v ≡ cached.framed_ip_addr.v
    → find c.info.session_id (insert_local core cached par dialect n.store).sessions ≡ none
    → IsConsistent (insert_local core cached par dialect n.store).links
    → let a = record n { store = insert_local core cached par dialect n.store } in
      let (d, (n', _)) = switch_request p k nodes m generate_cdr c a in
      (d ≡ with_core core cached c) × (has_child core c.info.session_id n'.store.links ≡ true)
unfolding switch_request
initial-procera p k nodes m generate_cdr c core cached par dialect n new is_core type procera named
      same unknown consistent =
    let s = insert_local core cached par dialect n.store in
    let a = record n { store = s } in
    let d = initial m c s in
    let found =
      subst
        (λ ip.
          find_core_sess_byframedip ip new_session_info s
          ≡ (0, fill_session_info core cached new_session_info))
        (sym same)
        (find_core_sess-insert_local core cached par dialect new_session_info n.store new
          is_core) in
    let e =
      initial_procera m c s procera
      ∙ procera_core-found user_unknown c core cached s found
          (cached-insert_local core cached par dialect n.store) in
    subst
      (λ r.
        (r.0 ≡ with_core core cached c)
        × (has_child core c.info.session_id r.1.0.store.links ≡ true))
      (sym (switch_initial p k nodes m generate_cdr c a type))
      (
        e,
        subst (λ d. Lists p k nodes core c.info.session_id d a) (sym e)
            (with_core-Lists p k nodes core cached c a named unknown consistent),
      )
