-- ===== src/Session/FramedIp.antt =====
-- The index by Framed-IP-Address of src/pcrf_session_cache_index.cpp (g_mapFramedIPIndex).
use pcrf.Common.{◌≡◌, Bool, ◌&&◌, ◌||◌, not, none, some, List, [], ◌∷◌, ◌++◌, arith, if◌then◌else◌}
use pcrf.Common.Text.{Text, text_eq, text_eq_iff}
use pcrf.Common.Lists.{contains, erase_all, contains-append, contains-one, contains-erase_all}
use pcrf.Common.Map.{Map, find, assign, insert, find-assign, find-insert}

abbrev pub FramedIpIndex : Type 0
FramedIpIndex = Map (List Text)

-- frameIPAddress_get_sessionList: the out-parameter is assigned only if the address is found; the
-- result code is 0 either way.
unfoldable pub get_session_list : Text → List Text → FramedIpIndex → List Text
get_session_list ip out m = elim (find ip m) [ some l ↦ l | none ↦ out ]

-- frameIPAddress_insert_session.
unfoldable pub insert_session : Text → Text → FramedIpIndex → FramedIpIndex
insert_session ip sid m = elim (find ip m) [
  | some l ↦ assign ip (l ++ sid ∷ []) m
  | none ↦ insert ip (sid ∷ []) m
]

-- frameIPAddress_remove_session: the list stays in the map, even if it becomes empty.
unfoldable pub remove_session : Text → Text → FramedIpIndex → FramedIpIndex
remove_session ip sid m = elim (find ip m) [ some l ↦ assign ip (erase_all sid l) m | none ↦ m ]

-- The sessions of an address, as a caller with a fresh list gets them.
abbrev pub sessions_of : Text → FramedIpIndex → List Text
sessions_of ip m = get_session_list ip [] m

pub sessions_of-insert_session :
    (ip jp sid : Text) (m : FramedIpIndex)
    → sessions_of jp (insert_session ip sid m)
      ≡ (if text_eq ip jp then sessions_of ip m ++ sid ∷ [] else sessions_of jp m)
unfolding get_session_list insert_session
sessions_of-insert_session ip jp sid m =
    ground
      (arith, find-assign ip jp (sessions_of ip m ++ sid ∷ []) m, find-insert ip jp (sid ∷ []) m)

sessions_of-remove_session :
    (ip jp sid : Text) (m : FramedIpIndex)
    → sessions_of jp (remove_session ip sid m)
      ≡ (if text_eq ip jp then erase_all sid (sessions_of ip m) else sessions_of jp m)
unfolding get_session_list remove_session erase_all
sessions_of-remove_session ip jp sid m =
    ground (arith, find-assign ip jp (erase_all sid (sessions_of ip m)) m, text_eq_iff ip jp)

-- Whether the index lists a session under an address.
abbrev pub listed : Text → Text → FramedIpIndex → Bool
listed ip sid m = contains sid (sessions_of ip m)

pub listed-insert_session :
    (ip jp sid tid : Text) (m : FramedIpIndex)
    → listed jp tid (insert_session ip sid m)
      ≡ (listed jp tid m || (text_eq ip jp && text_eq tid sid))
listed-insert_session ip jp sid tid m = ground (
  arith,
  sessions_of-insert_session ip jp sid m,
  contains-append tid (sessions_of ip m) (sid ∷ []),
  contains-one tid sid,
  text_eq_iff ip jp,
)

pub listed-remove_session :
    (ip jp sid tid : Text) (m : FramedIpIndex)
    → listed jp tid (remove_session ip sid m)
      ≡ (listed jp tid m && not (text_eq ip jp && text_eq sid tid))
listed-remove_session ip jp sid tid m = ground (
  arith,
  sessions_of-remove_session ip jp sid m,
  contains-erase_all tid sid (sessions_of ip m),
  text_eq_iff ip jp,
)
