-- ===== src/Linked/Reuse.antt =====
-- What the structure that the loops of src/pcrf_linked_session.cpp use for all sessions does to the
-- sessions after the first.
use pcrf.Common.{
  ℕ, ◌≡◌, refl, false, none, some, List, [], ◌∷◌, ◌++◌, ◌==◌, arith, inl, inr, Option-cases,
  Bool-cases,
}
use pcrf.Common.Text.{Text}
use pcrf.Common.Map.{find}
use pcrf.Types.{SessionInfo, SessionCache, OtlText, new_session_info, gx_procera, rx_ims, einval}
use pcrf.Peer.{PeerInfo, peer_dialect, is_peer}
use pcrf.Session.Links.{get_linked_child_session_list}
use pcrf.Session.Store.{Store, get, fill_session_info, take_missing}
use pcrf.Linked.{
  Action, procera_terminate, failed_bearer, failed_rule, load_session, terminate_one, report_one,
  walk, walk_linked, linked_session_terminate, linked_session_rule_report,
}

-- The structure names the session `id` of the host and the realm.
pub record IsOf (id : Text) (host realm : OtlText) (info : SessionInfo) : Type 0 where
  pub id_is : info.session_id ≡ id
  pub host_is : info.origin_host ≡ host
  pub realm_is : info.origin_realm ≡ realm

-- Whether the calls name it, where they are given the structure.
abbrev pub AllOf : Text → OtlText → OtlText → List Action → Type 0
AllOf id host realm [] = Unit {0}
AllOf id host realm (procera_terminate _ ∷ l) = AllOf id host realm l
AllOf id host realm (failed_bearer info ∷ l) = IsOf id host realm info × AllOf id host realm l
AllOf id host realm (failed_rule info ∷ l) = IsOf id host realm info × AllOf id host realm l

AllOf-append :
    (id : Text) (host realm : OtlText) (l m : List Action)
    → AllOf id host realm l
    → AllOf id host realm m
    → AllOf id host realm (l ++ m)
AllOf-append id host realm [] m h k = k
AllOf-append id host realm (procera_terminate _ ∷ l) m h k = AllOf-append id host realm l m h k
AllOf-append id host realm (failed_bearer info ∷ l) m (g, h) k =
    (g, AllOf-append id host realm l m h k)
AllOf-append id host realm (failed_rule info ∷ l) m (g, h) k =
    (g, AllOf-append id host realm l m h k)

IsOf-peer_dialect :
    (id : Text) (host realm : OtlText) (peers : List PeerInfo) (info : SessionInfo)
    → IsOf id host realm info
    → IsOf id host realm (peer_dialect peers info).1
unfolding peer_dialect
IsOf-peer_dialect id host realm [] info h = h
IsOf-peer_dialect id host realm (p ∷ peers) info h =
    elim (Bool-cases (is_peer p info.origin_host.v info.origin_realm.v)) [
      | inl e ↦
          rw (peer_dialect, e)
            (record { id_is = h.id_is; host_is = h.host_is; realm_is = h.realm_is })
      | inr e ↦ rw (peer_dialect, e) (IsOf-peer_dialect id host realm peers info h)
    ]

get_found :
    (s : Store) (sid : Text) (c : SessionCache) (info : SessionInfo)
    → find sid s.sessions ≡ some c
    → get sid (some info) none none s ≡ record {
      code = 0;
      info = some (fill_session_info sid c info);
      req = none;
      parent_id = none;
    }
unfolding get
get_found s sid c info e = rw (get, e) refl

get_unknown :
    (s : Store) (sid : Text) (info : SessionInfo)
    → find sid s.sessions ≡ none
    → get sid (some info) none none s
      ≡ record { code = einval; info = some info; req = none; parent_id = none }
unfolding get
get_unknown s sid info e = rw (get, e) refl

module _ (id : Text) (host realm : OtlText) where
  -- After a session that is cached the structure is what `fill` made of it, but for the dialect.
  IsOf-load_cached :
      (s : Store) (peers : List PeerInfo) (sid : Text) (c : SessionCache) (info : SessionInfo)
      → find sid s.sessions ≡ some c
      → IsOf id host realm (fill_session_info sid c info)
      → IsOf id host realm (load_session s peers sid info).0
  unfolding load_session
  IsOf-load_cached s peers sid c info e h =
      rw (load_session, get_found s sid c info e)
        (IsOf-peer_dialect id host realm peers (fill_session_info sid c info) h)

  IsOf-load_unknown :
      (s : Store) (peers : List PeerInfo) (sid : Text) (info : SessionInfo)
      → find sid s.sessions ≡ none
      → IsOf id host realm info
      → IsOf id host realm (load_session s peers sid info).0
  unfolding load_session
  IsOf-load_unknown s peers sid info e h = rw (load_session, get_unknown s sid info e) h

module _ (a : ℕ) (x : Text) (host realm : OtlText) (host_set : host.is_null ≡ false)
    (realm_set : realm.is_null ≡ false) where
  IsOf-fill :
      (sid : Text) (c : SessionCache) (info : SessionInfo)
      → IsOf (a ∷ x) host realm info
      → IsOf (a ∷ x) host realm (fill_session_info sid c info)
  unfolding fill_session_info take_missing
  IsOf-fill sid c info h = record {
    id_is = ground arith;
    host_is = ground (arith, host_set);
    realm_is = ground (arith, realm_set);
  }

  IsOf-load_session :
      (s : Store) (peers : List PeerInfo) (sid : Text) (info : SessionInfo)
      → IsOf (a ∷ x) host realm info
      → IsOf (a ∷ x) host realm (load_session s peers sid info).0
  IsOf-load_session s peers sid info h = elim (Option-cases (find sid s.sessions)) [
    | inl e ↦ IsOf-load_unknown (a ∷ x) host realm s peers sid info e h
    | inr (c, e) ↦ IsOf-load_cached (a ∷ x) host realm s peers sid c info e (IsOf-fill sid c info h)
  ]

  AllOf-walk :
      (one : Text → SessionInfo → List Action)
      → ((sid : Text) (info : SessionInfo)
          → IsOf (a ∷ x) host realm info
          → AllOf (a ∷ x) host realm (one sid info))
      → (s : Store) (peers : List PeerInfo) (sids : List Text) (info : SessionInfo)
      → IsOf (a ∷ x) host realm info
      → AllOf (a ∷ x) host realm (walk one s peers sids info)
  unfolding walk
  AllOf-walk one ok s peers [] info h = tt
  AllOf-walk one ok s peers (sid ∷ sids) info h =
      let loaded = load_session s peers sid info in
      let h' = IsOf-load_session s peers sid info h in
      let rest = AllOf-walk one ok s peers sids loaded.0 h' in
      elim (Bool-cases loaded.1) [
        | inl e ↦
            rw e (AllOf-append (a ∷ x) host realm (one sid loaded.0) _ (ok sid loaded.0 h') rest)
        | inr e ↦ rw e rest
      ]

  AllOf-terminate_one :
      (sid : Text) (info : SessionInfo)
      → IsOf (a ∷ x) host realm info
      → AllOf (a ∷ x) host realm (terminate_one sid info)
  unfolding terminate_one
  AllOf-terminate_one sid info h = elim (Bool-cases (info.peer_dialect == gx_procera)) [
    | inl e ↦ rw (terminate_one, e) tt
    | inr e ↦ elim (Bool-cases (info.peer_dialect == rx_ims)) [
      | inl f ↦ rw (terminate_one, e, f) (h, tt)
      | inr f ↦ rw (terminate_one, e, f) tt
    ]
  ]

  AllOf-report_one :
      (sid : Text) (info : SessionInfo)
      → IsOf (a ∷ x) host realm info
      → AllOf (a ∷ x) host realm (report_one sid info)
  unfolding report_one
  AllOf-report_one sid info h = elim (Bool-cases (info.peer_dialect == rx_ims)) [
    | inl f ↦ rw (report_one, f) (h, tt)
    | inr f ↦ rw (report_one, f) tt
  ]

IsOf-first :
    (sid : Text) (c : SessionCache)
    → IsOf sid c.origin_host c.origin_realm (fill_session_info sid c new_session_info)
unfolding fill_session_info take_missing
IsOf-first sid c = record { id_is = refl; host_is = refl; realm_is = refl }

AllOf-walk_linked :
    (one : Text → SessionInfo → List Action) (s : Store) (peers : List PeerInfo) (ipcan : Text)
    (a : ℕ) (x : Text) (c : SessionCache) (sids : List Text)
    → ((sid : Text) (info : SessionInfo)
        → IsOf (a ∷ x) c.origin_host c.origin_realm info
        → AllOf (a ∷ x) c.origin_host c.origin_realm (one sid info))
    → get_linked_child_session_list ipcan [] s.links ≡ (0, (a ∷ x) ∷ sids)
    → find (a ∷ x) s.sessions ≡ some c
    → c.origin_host.is_null ≡ false
    → c.origin_realm.is_null ≡ false
    → AllOf (a ∷ x) c.origin_host c.origin_realm (walk_linked one s peers ipcan)
unfolding walk_linked walk
AllOf-walk_linked one s peers ipcan a x c sids ok linked cached host_set realm_set =
    let loaded = load_session s peers (a ∷ x) new_session_info in
    let first =
      IsOf-load_cached (a ∷ x) c.origin_host c.origin_realm s peers (a ∷ x) c new_session_info
        cached (IsOf-first (a ∷ x) c) in
    let rest =
      AllOf-walk a x c.origin_host c.origin_realm host_set realm_set one ok s peers sids loaded.0
        first in
    rw (walk_linked, linked, walk)
      (elim (Bool-cases loaded.1) [
        | inl e ↦ rw e (
            AllOf-append (a ∷ x) c.origin_host c.origin_realm (one (a ∷ x) loaded.0) _
              (ok (a ∷ x) loaded.0 first) rest)
        | inr e ↦ rw e rest
      ])

-- For a session with linked sessions, of which the first is cached with the host and the realm of
-- its peer and has an id that is not empty: whatever the others are, each call of
-- app_rx_operate_failed_bearer and app_rx_operate_failed_rule is given the id, the host and the
-- realm of the first.
pub AllOf-linked_session :
    (s : Store) (peers : List PeerInfo) (ipcan : Text) (a : ℕ) (x : Text) (c : SessionCache)
    (sids : List Text)
    → get_linked_child_session_list ipcan [] s.links ≡ (0, (a ∷ x) ∷ sids)
    → find (a ∷ x) s.sessions ≡ some c
    → c.origin_host.is_null ≡ false
    → c.origin_realm.is_null ≡ false
    → AllOf (a ∷ x) c.origin_host c.origin_realm (linked_session_terminate s peers ipcan)
      × AllOf (a ∷ x) c.origin_host c.origin_realm (linked_session_rule_report s peers ipcan)
unfolding linked_session_terminate linked_session_rule_report
AllOf-linked_session s peers ipcan a x c sids linked cached host_set realm_set = (
  AllOf-walk_linked terminate_one s peers ipcan a x c sids
      (AllOf-terminate_one a x c.origin_host c.origin_realm host_set realm_set) linked cached
      host_set realm_set,
  AllOf-walk_linked report_one s peers ipcan a x c sids
      (AllOf-report_one a x c.origin_host c.origin_realm host_set realm_set) linked cached host_set
      realm_set,
)
