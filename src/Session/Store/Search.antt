-- ===== src/Session/Store/Search.antt =====
-- The searches by Framed-IP-Address: pcrf_server_find_core_sess_byframedip and
-- pcrf_server_find_IPCAN_sess_byframedip of src/pcrf_server.cpp and pcrf_server_find_core_session of
-- src/pcrf_session_cache_index.cpp.
use pcrf.Common.{
  ℕ, ◌≡◌, refl, true, ◌==◌, Option, none, some, List, [], ◌∷◌, ◌++◌, arith, if◌then◌else◌,
}
use pcrf.Common.Text.{Text, text_eq, text_eq_refl}
use pcrf.Common.Map.{find}
use pcrf.Types.{OtlText, SessionCache, SessionInfo, new_session_info, einval, enodata}
use pcrf.Session.FramedIp.{get_session_list, sessions_of, sessions_of-insert_session}
use pcrf.Session.Store.{Store, get, fill_session_info, is_core_dialect, index_session, insert_local}
use pcrf.Session.Store.Insertion.{find-insert_local, insert_local_new}

-- list::back(); `none` for the empty list.
unfoldable pub last : List Text → Option Text
last [] = none
last (x ∷ []) = some x
last (x ∷ y ∷ ys) = last (y ∷ ys)

unfoldable pub or_info : SessionInfo → Option SessionInfo → SessionInfo
or_info info none = info
or_info info (some i) = i

-- find_core_sess_byframedip: the code and the session; CHECK_FCT returns the code of a failed
-- pcrf_session_cache_get.
unfoldable pub find_core_sess_byframedip : Text → SessionInfo → Store → ℕ × SessionInfo
unfolding last get or_info
find_core_sess_byframedip ip info s = elim (last (get_session_list ip [] s.framed_ip)) [
  | none ↦ (enodata, info)
  | some sid ↦ let r = get sid (some info) none none s in (r.code, or_info info r.info)
]

unfoldable find_ipcan_sess_byframedip : OtlText → SessionInfo → Store → ℕ × SessionInfo
unfolding find_core_sess_byframedip
find_ipcan_sess_byframedip ip info s =
    if ip.is_null then (einval, info) else find_core_sess_byframedip ip.v info s

-- find_core_session: the code and the IP-CAN session id. On the early return the out-parameter
-- keeps what it held.
unfoldable pub find_core_session : Text → Text → Text → Store → ℕ × Text
unfolding find_core_sess_byframedip
find_core_session sub ip out s =
    let (code, info) = find_core_sess_byframedip ip new_session_info s in
    if code == 0
    then (if text_eq sub info.subscriber_id then (0, info.session_id) else (enodata, []))
    else (enodata, out)

last-append : (xs : List Text) (x : Text) → last (xs ++ x ∷ []) ≡ some x
unfolding last
last-append [] x = refl
last-append (y ∷ []) x = refl
last-append (y ∷ z ∷ zs) x = last-append (z ∷ zs) x

last-sessions_of-insert_local :
    (sid : Text) (c : SessionCache) (par : Option Text) (dialect : ℕ) (s : Store)
    → find sid s.sessions ≡ none
    → is_core_dialect dialect ≡ true
    → last (sessions_of c.framed_ip_addr.v (insert_local sid c par dialect s).framed_ip) ≡ some sid
unfolding index_session
last-sessions_of-insert_local sid c par dialect s absent core =
    rw (insert_local_new sid c par dialect s absent, core)
      (ground (
        arith,
        sessions_of-insert_session c.framed_ip_addr.v c.framed_ip_addr.v sid s.framed_ip,
        text_eq_refl c.framed_ip_addr.v,
        last-append (sessions_of c.framed_ip_addr.v s.framed_ip) sid,
      ))

pub cached-insert_local :
    (sid : Text) (c : SessionCache) (par : Option Text) (dialect : ℕ) (s : Store)
    → find sid (insert_local sid c par dialect s).sessions ≡ some c
cached-insert_local sid c par dialect s =
    ground (arith, find-insert_local sid c par dialect sid s, text_eq_refl sid)

-- The session that was inserted last under an address is the one that the search by the address
-- finds, with the values of its record.
pub find_core_sess-insert_local :
    (sid : Text) (c : SessionCache) (par : Option Text) (dialect : ℕ) (info : SessionInfo)
    (s : Store)
    → find sid s.sessions ≡ none
    → is_core_dialect dialect ≡ true
    → find_core_sess_byframedip c.framed_ip_addr.v info (insert_local sid c par dialect s)
      ≡ (0, fill_session_info sid c info)
unfolding find_core_sess_byframedip
find_core_sess-insert_local sid c par dialect info s absent core = ground (
  arith,
  last-sessions_of-insert_local sid c par dialect s absent core,
  cached-insert_local sid c par dialect s,
)
