-- ===== src/Cluster/Agreement.antt =====
-- A session that one node inserts or removes, in the caches of two nodes: src/pcrf_session_cache.cpp
-- and src/pcrf_ipc.cpp.
use pcrf.Common.{
  ℕ, ◌+◌, ◌<◌, ◌≡◌, refl, false, Option, none, some, List, [], ◌∷◌, arith, Option-cases, inl, inr,
}
use pcrf.Common.Text.{Text, text_eq_refl}
use pcrf.Common.Lists.{length}
use pcrf.Common.Map.{find, find-erase}
use pcrf.Types.{SessionInfo, RequestInfo, SessionCache}
use pcrf.Peer.{peer_dialect_ret}
use pcrf.RuleCache.{SessRules, remove_sess_local}
use pcrf.RuleCache.Contents.{rules_of, rules_of-remove_sess_local}
use pcrf.Session.Store.{Store, cache_of, insert_local, remove_local}
use pcrf.Session.Store.Insertion.{find-insert_local}
use pcrf.Ipc.Codes.{Codes, SwitchLabels, PsPacket, PsPacketLaws}
use pcrf.Ipc.Pack.{packed, session_items, fill_pspack, cmd2remote, message_of, send_all}
use pcrf.Ipc.Process.{Node, no_answer, process_request, is_nil}
use pcrf.Ipc.Delivery.{Fits}
use pcrf.Ipc.Replication.{
  delivered, delivered_field, insert_session-delivered, remove_session-delivered,
}
use pcrf.Cluster.{session_cache_insert, session_cache_remove}

-- The record under an identifier after insert_local and after remove_local.
cached :
    (sid : Text) (s : Store) (dialect : ℕ) (c : SessionCache) (par : Option Text)
    → find sid (insert_local sid c par dialect s).sessions ≡ some c
cached sid s dialect c par =
    ground (arith, find-insert_local sid c par dialect sid s, text_eq_refl sid)

removed : (sid : Text) (s : Store) → find sid (remove_local sid s).1.sessions ≡ none
unfolding remove_local
removed sid s = elim (Option-cases (find sid s.sessions)) [
  | inl absent ↦ rw (remove_local, absent) absent
  | inr (c, present) ↦
      rw (remove_local, present) (ground (arith, find-erase sid sid s.sessions, text_eq_refl sid))
]

forgotten : (sid : Text) (m : SessRules) → rules_of sid (remove_sess_local sid m) ≡ []
forgotten sid m = rw (rules_of-remove_sess_local sid sid m, text_eq_refl sid) refl

sent :
    (p : PsPacket) (k : Codes) (nodes : List (Option ℕ)) (sid : Text) (cache : Option SessionCache)
    (type : ℕ) (param : Option Text) (msg : Text)
    → fill_pspack p k sid cache type param ≡ packed msg
    → cmd2remote p k nodes sid cache type param ≡ send_all nodes msg
unfolding cmd2remote message_of
sent p k nodes sid cache type param msg e = rw (cmd2remote, e) refl

module _ (p : PsPacket) (k : Codes) (laws : PsPacketLaws p) (labels : SwitchLabels k) where
  -- pcrf_session_cache_insert of a session with an identifier, whose packet can be built: each
  -- reachable node is sent the packet, and a node that receives it then holds the record that the
  -- sender holds, without the values of its null fields.
  pub session_cache_insert-agrees :
      (nodes : List (Option ℕ)) (sid : Text) (info : SessionInfo) (req : Option RequestInfo)
      (par : Option Text) (msg : Text) (a b : Node)
      → is_nil sid ≡ false
      → (cache_of info req).ip_can_type_code < 4294967296
      → (cache_of info req).rat_type_code < 4294967296
      → Fits (
          record { vend_id = 0; avp_id = 263; content = sid }
          ∷ session_items k (cache_of info req) par)
      → fill_pspack p k sid (some (cache_of info req)) k.cmd_insert_session par ≡ packed msg
      → let r = session_cache_insert p k nodes sid info req par a in
        (r.1 ≡ send_all nodes msg)
        × (find sid r.0.store.sessions ≡ some (cache_of info req))
        × ((b' : Node) × (process_request p k msg b ≡ some (b', no_answer))
            × (find sid b'.store.sessions ≡ some (delivered (cache_of info req))))
  unfolding session_cache_insert
  session_cache_insert-agrees nodes sid info req par msg a b named i r f e =
      let c = cache_of info req in
      let dialect = peer_dialect_ret a.peers info.origin_host.v info.origin_realm.v in
      let there =
        peer_dialect_ret b.peers (delivered_field c.origin_host).v
          (delivered_field c.origin_realm).v in
      rw named (
        sent p k nodes sid (some c) k.cmd_insert_session par msg e,
        cached sid a.store dialect c par,
        (
          record b { store = insert_local sid (delivered c) par there b.store },
          insert_session-delivered p k laws labels sid c par msg b i r f e,
          cached sid b.store there (delivered c) par,
        ),
      )

  -- pcrf_session_cache_remove, where the packet can be built: each reachable node is sent the
  -- packet, and neither the sender nor a node that receives it holds the session or rules of it
  -- afterwards.
  pub session_cache_remove-agrees :
      (nodes : List (Option ℕ)) (sid msg : Text) (a b : Node)
      → length sid + 8 < 65536
      → fill_pspack p k sid none k.cmd_remove_session none ≡ packed msg
      → let r = session_cache_remove p k nodes sid a in
        (r.1 ≡ send_all nodes msg)
        × (find sid r.0.store.sessions ≡ none)
        × (rules_of sid r.0.rules ≡ [])
        × ((b' : Node) × (process_request p k msg b ≡ some (b', no_answer))
            × (find sid b'.store.sessions ≡ none)
            × (rules_of sid b'.rules ≡ []))
  unfolding session_cache_remove
  session_cache_remove-agrees nodes sid msg a b f e = (
    sent p k nodes sid none k.cmd_remove_session none msg e,
    removed sid a.store,
    forgotten sid a.rules,
    (
      record b { store = (remove_local sid b.store).1; rules = remove_sess_local sid b.rules },
      remove_session-delivered p k laws labels sid msg b f e,
      removed sid b.store,
      forgotten sid b.rules,
    ),
  )
