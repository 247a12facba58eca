-- ===== src/Gx/Lifetime.antt =====
-- What a credit control request does to the cached sessions of the node: app_pcrf_ccr_cb of
-- src/pcrf_server.cpp.
use pcrf.Common.{
  ℕ, ◌≡◌, ◌&&◌, refl, sym, ap, subst, ◌∙◌, Bool, false, Option, none, some, List, ◌==◌, arith,
  if◌then◌else◌, Option-cases, Bool-cases, inl, inr,
}
use pcrf.Common.Text.{Text, text_eq_refl}
use pcrf.Common.Map.{find, find-erase}
use pcrf.Types.{SessionInfo, RequestInfo, initial_request, termination_request, update_request}
use pcrf.Peer.{peer_dialect_ret}
use pcrf.Subscribers.{SubscriptionMaps}
use pcrf.Refresh.{LocalQueue}
use pcrf.Session.Store.{Store, cache_of, remove_local}
use pcrf.Session.Store.Search.{cached-insert_local}
use pcrf.Ipc.Codes.{Codes, PsPacket}
use pcrf.Ipc.Process.{Node, is_nil}
use pcrf.Cluster.{session_cache_insert, session_cache_remove}
use pcrf.Gx.{
  Ccr, initial, termination, switch_request, begin_request, open_request, update_cache, ccr_cb,
}
use pcrf.Gx.Kept.{
  session_id-initial, session_id-termination, session_id-switch_request, session_id-begin_request,
  cc_request_type-switch_request,
}

-- The record of the session of the request, after the insertion and after the removal.
inserted :
    (p : PsPacket) (k : Codes) (nodes : List (Option ℕ)) (sid : Text) (info : SessionInfo)
    (req : Option RequestInfo) (par : Option Text) (n : Node)
    → is_nil sid ≡ false
    → find sid (session_cache_insert p k nodes sid info req par n).0.store.sessions
      ≡ some (cache_of info req)
unfolding session_cache_insert
inserted p k nodes sid info req par n named = rw named (
    cached-insert_local sid (cache_of info req) par
      (peer_dialect_ret n.peers info.origin_host.v info.origin_realm.v) n.store)

removed : (sid : Text) (s : Store) → find sid (remove_local sid s).1.sessions ≡ none
unfolding remove_local
removed sid s = elim (Option-cases (find sid s.sessions)) [
  | inl absent ↦ rw (remove_local, absent) absent
  | inr (c, present) ↦
      rw (remove_local, present) (ground (arith, find-erase sid sid s.sessions, text_eq_refl sid))
]

-- The same for the switch alone, by the three branches.
find-initial :
    (p : PsPacket) (k : Codes) (nodes : List (Option ℕ)) (d : Ccr) (sid : Text) (n : Node)
    → d.info.session_id ≡ sid
    → is_nil sid ≡ false
    → find sid
        (session_cache_insert p k nodes d.info.session_id d.info
          (some d.req)
          d.ipcan_session_id
          n).0.store.sessions
      ≡ some (cache_of d.info (some d.req))
find-initial p k nodes d sid n e named =
    subst
      (λ x.
        find sid
          (session_cache_insert p k nodes x d.info (some d.req) d.ipcan_session_id
            n).0.store.sessions
        ≡ some (cache_of d.info (some d.req)))
      (sym e) (inserted p k nodes sid d.info (some d.req) d.ipcan_session_id n named)

find-termination :
    (p : PsPacket) (k : Codes) (nodes : List (Option ℕ)) (d : Ccr) (sid : Text) (n : Node)
    → d.info.session_id ≡ sid
    → find sid (session_cache_remove p k nodes d.info.session_id n).0.store.sessions ≡ none
unfolding session_cache_remove
find-termination p k nodes d sid n e =
    subst (λ x. find sid (remove_local x n.store).1.sessions ≡ none) (sym e) (removed sid n.store)

find-switch_request :
    (p : PsPacket) (k : Codes) (nodes : List (Option ℕ)) (m : SubscriptionMaps)
    (generate_cdr : Bool) (c : Ccr) (n : Node)
    → is_nil c.info.session_id ≡ false
    → let (d, (n', _)) = switch_request p k nodes m generate_cdr c n in
      find c.info.session_id n'.store.sessions ≡ (
        if c.req.cc_request_type == initial_request
        then some (cache_of d.info (some d.req))
        else if c.req.cc_request_type == termination_request
        then none
        else find c.info.session_id n.store.sessions)
unfolding switch_request
find-switch_request p k nodes m generate_cdr c n named =
    elim (Bool-cases (c.req.cc_request_type == initial_request)) [
      | inl h ↦
          rw (switch_request, h)
            (find-initial p k nodes (initial m c n.store) c.info.session_id n
              (session_id-initial m c n.store named) named)
      | inr h ↦ elim (Bool-cases (c.req.cc_request_type == termination_request)) [
        | inl t ↦
            rw (switch_request, h, t)
              (find-termination p k nodes (termination generate_cdr c n) c.info.session_id n
                (session_id-termination generate_cdr c n named))
        | inr t ↦ ground (arith)
      ]
    ]

-- The insertion of an update request.
find-update_cache :
    (p : PsPacket) (k : Codes) (nodes : List (Option ℕ)) (d : Ccr) (n : Node)
    → is_nil d.info.session_id ≡ false
    → find d.info.session_id (update_cache p k nodes d n).0.store.sessions ≡ (
        if d.req.cc_request_type == update_request && d.action_set.update_sessioncache
        then some (cache_of d.info (some d.req))
        else find d.info.session_id n.store.sessions)
unfolding update_cache
find-update_cache p k nodes d n named =
    elim (Bool-cases
      (d.req.cc_request_type == update_request && d.action_set.update_sessioncache)) [
        | inl e ↦
            rw (update_cache, e)
              (inserted p k nodes d.info.session_id d.info (some d.req) d.ipcan_session_id n named)
        | inr e ↦ rw (update_cache, e) refl
      ]

-- The switch and the insertion behind it, which is that of an update request only: `x` is the record
-- of the locals, `z` the one before and `y` the one between.
in_order :
    {A : Type 0} (type given : ℕ) (bit : Bool) (x z y : Option A)
    → type ≡ given
    → y ≡ (if given == initial_request then x else if given == termination_request then none else z)
    → (if type == update_request && bit then x else y) ≡ (
        if given == initial_request
        then x
        else if given == termination_request
        then none
        else if given == update_request && bit
        then x
        else z)
in_order type given bit x z y e f = rw (e, f) (ground arith)

find-switched :
    (p : PsPacket) (k : Codes) (nodes : List (Option ℕ)) (m : SubscriptionMaps)
    (generate_cdr : Bool) (c : Ccr) (n : Node)
    → is_nil c.info.session_id ≡ false
    → let (d, (n', _)) = switch_request p k nodes m generate_cdr c n in
      find c.info.session_id (update_cache p k nodes d n').0.store.sessions ≡ (
        if c.req.cc_request_type == initial_request
        then some (cache_of d.info (some d.req))
        else if c.req.cc_request_type == termination_request
        then none
        else if c.req.cc_request_type == update_request && d.action_set.update_sessioncache
        then some (cache_of d.info (some d.req))
        else find c.info.session_id n.store.sessions)
find-switched p k nodes m generate_cdr c n named =
    let (d, (n', _)) = switch_request p k nodes m generate_cdr c n in
    let same = session_id-switch_request p k nodes m generate_cdr c n named in
    let updates =
      subst
        (λ x. find x (update_cache p k nodes d n').0.store.sessions ≡ (
          if d.req.cc_request_type == update_request && d.action_set.update_sessioncache
          then some (cache_of d.info (some d.req))
          else find x n'.store.sessions))
        same (find-update_cache p k nodes d n' (ap is_nil same ∙ named)) in
    updates
    ∙ in_order d.req.cc_request_type c.req.cc_request_type d.action_set.update_sessioncache
        (some (cache_of d.info (some d.req))) (find c.info.session_id n.store.sessions)
        (find c.info.session_id n'.store.sessions)
        (cc_request_type-switch_request p k nodes m generate_cdr c n)
        (find-switch_request p k nodes m generate_cdr c n named)

-- A request of a session with an identifier, of any type and dialect, with a connection or without:
-- afterwards the node holds, for the session, the record of what the locals then are if the
-- request is an initial one, and none if it is a termination. After an update request whose actions
-- include the update of the session cache it holds the record of the locals too; any other request
-- leaves the record that the node held.
pub find-ccr_cb :
    (p : PsPacket) (k : Codes) (nodes : List (Option ℕ)) (m : SubscriptionMaps)
    (generate_cdr look given : Bool) (info : SessionInfo) (req : RequestInfo) (queue : LocalQueue)
    (n : Node)
    → is_nil info.session_id ≡ false
    → let (c, (n', _)) = ccr_cb p k nodes m generate_cdr look given info req queue n in
      find info.session_id n'.store.sessions ≡ (
        if req.cc_request_type == initial_request
        then some (cache_of c.info (some c.req))
        else if req.cc_request_type == termination_request
        then none
        else if req.cc_request_type == update_request && c.action_set.update_sessioncache
        then some (cache_of c.info (some c.req))
        else find info.session_id n.store.sessions)
unfolding ccr_cb open_request begin_request
find-ccr_cb p k nodes m generate_cdr look given info req queue n named =
    let c = begin_request look given info req queue n in
    let e = session_id-begin_request look given info req queue n in
    subst
      (λ x.
        let (d, (n', _)) = switch_request p k nodes m generate_cdr c n in
        find x (update_cache p k nodes d n').0.store.sessions ≡ (
          if req.cc_request_type == initial_request
          then some (cache_of d.info (some d.req))
          else if req.cc_request_type == termination_request
          then none
          else if req.cc_request_type == update_request && d.action_set.update_sessioncache
          then some (cache_of d.info (some d.req))
          else find x n.store.sessions))
      e (find-switched p k nodes m generate_cdr c n (ap is_nil e ∙ named))
