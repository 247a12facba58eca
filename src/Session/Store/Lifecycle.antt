-- ===== src/Session/Store/Lifecycle.antt =====
-- pcrf_session_cache_insert_local of src/pcrf_session_cache.cpp, and then
-- pcrf_session_cache_remove_local.
use pcrf.Common.{ℕ, ◌≡◌, refl, Bool, ◌&&◌, not, Option, none, some, arith}
use pcrf.Common.Text.{Text, text_eq, text_eq_iff, text_eq_refl}
use pcrf.Common.Map.{find, insert, erase, find-erase, find-insert}
use pcrf.Types.{SessionCache}
use pcrf.Session.FramedIp
use pcrf.Session.FramedIp.{listed-insert_session, listed-remove_session}
use pcrf.Session.Subscribers
use pcrf.Session.Links.{mk_link2parent, remove_link}
use pcrf.Session.Store.{Store, index_session, insert_local, unindex_session, remove_local}
use pcrf.Session.Store.Insertion.{insert_local_new}

-- The store after remove_local of a session that is cached.
pub remove_local_found :
    (sid : Text) (c : SessionCache) (s : Store)
    → find sid s.sessions ≡ some c
    → remove_local sid s ≡ (
      0,
      record (unindex_session sid c s) {
        links = remove_link sid s.links;
        sessions = erase sid s.sessions;
      },
    )
unfolding remove_local
remove_local_found sid c s h = rw (h, remove_local)

-- Whether a session is listed for the Subscriber-Id or the Framed-IP-Address of a record.
abbrev pub by_ip : Text → Text → Store → Bool
by_ip ip x s = FramedIp.listed ip x s.framed_ip

abbrev pub by_subscriber : Text → Text → Store → Bool
by_subscriber sub x s = Subscribers.listed sub x s.subscribers

find-insert_self :
    (sid : Text) (c : SessionCache) (s : Store)
    → find sid s.sessions ≡ none
    → find sid (insert sid c s.sessions) ≡ some c
find-insert_self sid c s absent = ground (arith, find-insert sid sid c s.sessions, text_eq_refl sid)

-- The two steps in one equation.
remove_local_new :
    (sid : Text) (c : SessionCache) (par : Option Text) (dialect : ℕ) (s : Store)
    → find sid s.sessions ≡ none
    → remove_local sid (insert_local sid c par dialect s) ≡ (
      0,
      record (unindex_session sid c
          (index_session sid c par dialect (record s { sessions = insert sid c s.sessions }))) {
            links = remove_link sid (mk_link2parent sid par s.links);
            sessions = erase sid (insert sid c s.sessions);
          },
    )
unfolding index_session
remove_local_new sid c par dialect s absent = rw (insert_local_new sid c par dialect s absent) (
    remove_local_found sid c
      (index_session sid c par dialect (record s { sessions = insert sid c s.sessions }))
      (find-insert_self sid c s absent))

by_subscriber-insert_remove :
    (sub jub sid x : Text) (s : Store)
    → Subscribers.listed jub x (
        Subscribers.rm_subscriber_session_id sub sid
          (Subscribers.insert_session sub sid s.subscribers))
      ≡ (by_subscriber jub x s && not (text_eq sub jub && text_eq sid x))
by_subscriber-insert_remove sub jub sid x s = ground (
  arith,
  Subscribers.listed-rm_subscriber_session_id sub jub sid x
      (Subscribers.insert_session sub sid s.subscribers),
  Subscribers.listed-insert_session sub jub sid x s.subscribers,
)

by_ip-insert_remove :
    (ip jp sid x : Text) (s : Store)
    → FramedIp.listed jp x
        (FramedIp.remove_session ip sid (FramedIp.insert_session ip sid s.framed_ip))
      ≡ (by_ip jp x s && not (text_eq ip jp && text_eq sid x))
by_ip-insert_remove ip jp sid x s = ground (
  arith,
  listed-remove_session ip jp sid x (FramedIp.insert_session ip sid s.framed_ip),
  listed-insert_session ip jp sid x s.framed_ip,
  text_eq_iff sid x,
  text_eq_iff x sid,
)

-- A session that was not in the cache is inserted and removed again. The removal succeeds; every
-- session then has the record that it had before, the links are those that remove_link leaves
-- of the new link, and both indexes are as before, but that they do not list the session under
-- its own Framed-IP-Address and Subscriber-Id.
pub remove_local-insert_local :
    (sid : Text) (c : SessionCache) (par : Option Text) (dialect : ℕ) (s : Store)
    → find sid s.sessions ≡ none
    → let r = remove_local sid (insert_local sid c par dialect s) in
      (r.0 ≡ 0)
      × ((j : Text) → find j r.1.sessions ≡ find j s.sessions)
      × (r.1.links ≡ remove_link sid (mk_link2parent sid par s.links))
      × ((ip x : Text)
          → by_ip ip x r.1 ≡ (by_ip ip x s && not (text_eq c.framed_ip_addr.v ip && text_eq sid x)))
      × ((sub x : Text)
          → by_subscriber sub x r.1 ≡ (
              by_subscriber sub x s
              && not
                  (not c.subscriber_id.is_null && text_eq c.subscriber_id.v sub && text_eq sid x)))
unfolding index_session unindex_session
remove_local-insert_local sid c par dialect s absent =
    rw (remove_local_new sid c par dialect s absent) (
      refl,
      λ j. ground (
        arith,
        find-erase sid j (insert sid c s.sessions),
        find-insert sid j c s.sessions,
        text_eq_iff sid j,
      ),
      refl,
      λ ip x. ground (
        arith,
        by_ip-insert_remove c.framed_ip_addr.v ip sid x s,
        listed-remove_session c.framed_ip_addr.v ip sid x s.framed_ip,
      ),
      λ sub x. ground (arith, by_subscriber-insert_remove c.subscriber_id.v sub sid x s),
    )
