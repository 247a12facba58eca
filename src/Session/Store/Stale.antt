-- ===== src/Session/Store/Stale.antt =====
-- A session whose Framed-IP-Address changes in pcrf_session_cache_insert_local of
-- src/pcrf_session_cache.cpp.
use pcrf.Common.{ℕ, ◌≡◌, true, false, Option, none, some, arith}
use pcrf.Common.Text.{Text, text_eq, text_eq_refl}
use pcrf.Common.Map.{find, find-erase}
use pcrf.Types.{SessionCache}
use pcrf.Session.FramedIp.{listed-remove_session}
use pcrf.Session.Store.{Store, insert_local, update_child, unindex_session, remove_local}
use pcrf.Session.Store.Insertion.{find-insert_local}
use pcrf.Session.Store.Lifecycle.{by_ip, remove_local_found}

framed_ip-insert_old :
    (sid : Text) (c old : SessionCache) (par : Option Text) (dialect : ℕ) (s : Store)
    → find sid s.sessions ≡ some old
    → (insert_local sid c par dialect s).framed_ip ≡ s.framed_ip
unfolding insert_local update_child
framed_ip-insert_old sid c old par dialect s present = ground (arith, present)

-- A cached session is listed under its address; it is inserted again with another address and then
-- removed. The cache no longer holds it, and the index still lists it under the first address.
pub remove_local_stale :
    (sid : Text) (c old : SessionCache) (par : Option Text) (dialect : ℕ) (s : Store)
    → find sid s.sessions ≡ some old
    → by_ip old.framed_ip_addr.v sid s ≡ true
    → text_eq c.framed_ip_addr.v old.framed_ip_addr.v ≡ false
    → let t = (remove_local sid (insert_local sid c par dialect s)).1 in
      (find sid t.sessions ≡ none) × (by_ip old.framed_ip_addr.v sid t ≡ true)
unfolding unindex_session
remove_local_stale sid c old par dialect s present was moved =
    rw (remove_local_found sid c (insert_local sid c par dialect s) cached) (
      ground
          (arith, find-erase sid sid (insert_local sid c par dialect s).sessions, text_eq_refl sid),
      ground (
        arith,
        framed_ip-insert_old sid c old par dialect s present,
        listed-remove_session c.framed_ip_addr.v old.framed_ip_addr.v sid sid
            (insert_local sid c par dialect s).framed_ip,
      ),
    )
  where
    cached : find sid (insert_local sid c par dialect s).sessions ≡ some c
    cached = ground (arith, find-insert_local sid c par dialect sid s, text_eq_refl sid)
