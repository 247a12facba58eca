-- ===== src/Gx/Kept.antt =====
-- What the handling of a credit control request of src/pcrf_server.cpp keeps of its locals: the
-- identifier of the session and the type of the request.
use pcrf.Common.{
  ℕ, ◌≡◌, refl, ap, ◌∙◌, Bool, false, Option, List, [], ◌∷◌, arith, Option-cases, inl, inr,
}
use pcrf.Common.Text.{Text}
use pcrf.Common.Map.{find}
use pcrf.Types.{SessionInfo, RequestInfo, SessionCache, new_session_info}
use pcrf.Peer.{PeerInfo, peer_dialect}
use pcrf.Subscribers.{SubscriptionMaps}
use pcrf.Refresh.{LocalQueue}
use pcrf.Session.Store.{Store, get, fill_session_info, fill_request_info}
use pcrf.Session.Store.Search.{find_core_session, find_core_sess_byframedip}
use pcrf.Linked.{linked_session_terminate}
use pcrf.Ipc.Codes.{Codes, PsPacket}
use pcrf.Ipc.Process.{Node, is_nil}
use pcrf.Gx.{
  Ccr, get_into, or_request, attach_core, found_id, user_unknown, cisco_core, procera_core,
  with_subscriber_id, initial, termination, update, updated, switch_request, begin_request,
  correct_cisco,
}

-- A look-up does not change the identifier of a session that has one.
kept : (sid t u : Text) → is_nil t ≡ false → (elim t [ [] ↦ sid | _ ∷ _ ↦ u ]) ≡ u
kept sid [] u named = ground arith
kept sid (_ ∷ _) u named = refl

pub session_id-fill_session_info :
    (sid : Text) (c : SessionCache) (info : SessionInfo)
    → is_nil info.session_id ≡ false
    → (fill_session_info sid c info).session_id ≡ info.session_id
unfolding fill_session_info
session_id-fill_session_info sid c info named = kept sid info.session_id info.session_id named

session_id-get_into :
    (sid : Text) (c : Ccr) (s : Store)
    → is_nil c.info.session_id ≡ false
    → (get_into sid c s).1.info.session_id ≡ c.info.session_id
unfolding get_into get
session_id-get_into sid c s named = elim (Option-cases (find sid s.sessions)) [
  | inl absent ↦ rw (get_into, get, absent) refl
  | inr (cached, present) ↦
      rw (get_into, get, present) (session_id-fill_session_info sid cached c.info named)
]

session_id-attach_core :
    (missing : ℕ) (c : Ccr) (s : Store) (found : ℕ × Text)
    → is_nil c.info.session_id ≡ false
    → (attach_core missing c s found).info.session_id ≡ c.info.session_id
unfolding attach_core
session_id-attach_core missing c s (code, id) named =
    ground (arith, session_id-get_into id c s named)

pub session_id-initial :
    (m : SubscriptionMaps) (c : Ccr) (s : Store)
    → is_nil c.info.session_id ≡ false
    → (initial m c s).info.session_id ≡ c.info.session_id
unfolding initial with_subscriber_id cisco_core procera_core
session_id-initial m c s named = ground (
  arith,
  session_id-attach_core c.result_code (with_subscriber_id m c) s
      (find_core_session (with_subscriber_id m c).info.subscriber_id c.info.framed_ip_address.v []
        s)
      named,
  session_id-attach_core user_unknown c s
      (found_id (find_core_sess_byframedip c.info.framed_ip_address.v new_session_info s)) named,
)

pub session_id-termination :
    (generate_cdr : Bool) (c : Ccr) (n : Node)
    → is_nil c.info.session_id ≡ false
    → (termination generate_cdr c n).info.session_id ≡ c.info.session_id
unfolding termination
session_id-termination generate_cdr c n named = ground (
  arith,
  session_id-get_into c.info.session_id
      (record c { calls = linked_session_terminate n.store n.peers c.info.session_id }) n.store
      named,
)

session_id-updated :
    (code : ℕ) (c : Ccr) (n : Node)
    → is_nil c.info.session_id ≡ false
    → (updated code c n).info.session_id ≡ c.info.session_id
unfolding updated cisco_core procera_core
session_id-updated code c n named = ground (
  arith,
  session_id-attach_core user_unknown c n.store
      (find_core_session c.info.subscriber_id c.info.framed_ip_address.v [] n.store) named,
  session_id-attach_core c.result_code c n.store
      (found_id (find_core_sess_byframedip c.info.framed_ip_address.v new_session_info n.store))
      named,
)

session_id-update :
    (c : Ccr) (n : Node)
    → is_nil c.info.session_id ≡ false
    → (update c n).info.session_id ≡ c.info.session_id
unfolding update
session_id-update c n named =
    let (code, filled) = get_into c.info.session_id c n.store in
    let same = session_id-get_into c.info.session_id c n.store named in
    session_id-updated code filled n (ap is_nil same ∙ named) ∙ same

-- The same of the type of the request.
cc_request_type-get_into :
    (sid : Text) (c : Ccr) (s : Store)
    → (get_into sid c s).1.req.cc_request_type ≡ c.req.cc_request_type
unfolding get_into get or_request fill_request_info
cc_request_type-get_into sid c s = elim (Option-cases (find sid s.sessions)) [
  | inl absent ↦ rw (get_into, get, absent) refl
  | inr (cached, present) ↦ rw (get_into, get, present) refl
]

cc_request_type-attach_core :
    (missing : ℕ) (c : Ccr) (s : Store) (found : ℕ × Text)
    → (attach_core missing c s found).req.cc_request_type ≡ c.req.cc_request_type
unfolding attach_core
cc_request_type-attach_core missing c s (code, id) = ground (arith, cc_request_type-get_into id c s)

cc_request_type-initial :
    (m : SubscriptionMaps) (c : Ccr) (s : Store)
    → (initial m c s).req.cc_request_type ≡ c.req.cc_request_type
unfolding initial with_subscriber_id cisco_core procera_core
cc_request_type-initial m c s = ground (
  arith,
  cc_request_type-attach_core c.result_code (with_subscriber_id m c) s (
      find_core_session (with_subscriber_id m c).info.subscriber_id c.info.framed_ip_address.v []
        s),
  cc_request_type-attach_core user_unknown c s
      (found_id (find_core_sess_byframedip c.info.framed_ip_address.v new_session_info s)),
)

cc_request_type-termination :
    (generate_cdr : Bool) (c : Ccr) (n : Node)
    → (termination generate_cdr c n).req.cc_request_type ≡ c.req.cc_request_type
unfolding termination
cc_request_type-termination generate_cdr c n = ground (
  arith,
  cc_request_type-get_into c.info.session_id
      (record c { calls = linked_session_terminate n.store n.peers c.info.session_id }) n.store,
)

cc_request_type-updated :
    (code : ℕ) (c : Ccr) (n : Node) → (updated code c n).req.cc_request_type ≡ c.req.cc_request_type
unfolding updated cisco_core procera_core
cc_request_type-updated code c n = ground (
  arith,
  cc_request_type-attach_core user_unknown c n.store
      (find_core_session c.info.subscriber_id c.info.framed_ip_address.v [] n.store),
  cc_request_type-attach_core c.result_code c n.store
      (found_id (find_core_sess_byframedip c.info.framed_ip_address.v new_session_info n.store)),
)

cc_request_type-update :
    (c : Ccr) (n : Node) → (update c n).req.cc_request_type ≡ c.req.cc_request_type
unfolding update
cc_request_type-update c n =
    let (code, filled) = get_into c.info.session_id c n.store in
    cc_request_type-updated code filled n ∙ cc_request_type-get_into c.info.session_id c n.store

-- Both, of the switch.
module _ (p : PsPacket) (k : Codes) (nodes : List (Option ℕ)) (m : SubscriptionMaps)
    (generate_cdr : Bool) (c : Ccr) (n : Node) where
  pub cc_request_type-switch_request :
      (switch_request p k nodes m generate_cdr c n).0.req.cc_request_type ≡ c.req.cc_request_type
  unfolding switch_request
  cc_request_type-switch_request = ground (
    arith,
    cc_request_type-initial m c n.store,
    cc_request_type-termination generate_cdr c n,
    cc_request_type-update c n,
  )

  pub session_id-switch_request :
      is_nil c.info.session_id ≡ false
      → (switch_request p k nodes m generate_cdr c n).0.info.session_id ≡ c.info.session_id
  unfolding switch_request
  session_id-switch_request named = ground (
    arith,
    session_id-initial m c n.store named,
    session_id-termination generate_cdr c n named,
    session_id-update c n named,
  )

session_id-peer_dialect :
    (peers : List PeerInfo) (info : SessionInfo)
    → (peer_dialect peers info).1.session_id ≡ info.session_id
unfolding peer_dialect
session_id-peer_dialect [] info = refl
session_id-peer_dialect (p ∷ peers) info = ground (arith, session_id-peer_dialect peers info)

pub session_id-begin_request :
    (look given : Bool) (info : SessionInfo) (req : RequestInfo) (queue : LocalQueue) (n : Node)
    → (begin_request look given info req queue n).info.session_id ≡ info.session_id
unfolding begin_request correct_cisco
session_id-begin_request look given info req queue n =
    ground (arith, session_id-peer_dialect n.peers info)
