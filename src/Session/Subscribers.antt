-- ===== src/Session/Subscribers.antt =====
-- The index by Subscriber-Id of src/pcrf_session_cache_index.cpp (g_mapSubscriberId).
use pcrf.Common.{
  ℕ, ◌≡◌, Bool, ◌&&◌, ◌||◌, not, none, some, List, [], ◌∷◌, ◌++◌, arith, if◌then◌else◌,
}
use pcrf.Common.Text.{Text, text_eq, text_eq_iff}
use pcrf.Common.Lists.{contains, erase_all, set_insert, contains-set_insert, contains-erase_all}
use pcrf.Common.Map.{Map, find, assign, insert, find-assign, find-insert}
use pcrf.Types.{enodata}

-- The list of a subscriber is a std::set, in the order of its iteration.
abbrev pub SubscriberIndex : Type 0
SubscriberIndex = Map (List Text)

-- index_subscriberId_insert_session.
unfoldable pub insert_session : Text → Text → SubscriberIndex → SubscriberIndex
insert_session sub sid m = elim (find sub m) [
  | none ↦ insert sub (sid ∷ []) m
  | some set ↦ assign sub (set_insert sid set) m
]

-- get_subscriber_session_id: the sessions are appended to the out-parameter.
unfoldable pub get_subscriber_session_id : Text → List Text → SubscriberIndex → ℕ × List Text
get_subscriber_session_id sub out m = elim (find sub m) [
  | some set ↦ (0, out ++ set)
  | none ↦ (enodata, out)
]

-- rm_subscriber_session_id; a set holds an element once, so that erasing all its copies is
-- erasing the one that find() returns.
unfoldable pub rm_subscriber_session_id : Text → Text → SubscriberIndex → SubscriberIndex
rm_subscriber_session_id sub sid m = elim (find sub m) [
  | some set ↦ if contains sid set then assign sub (erase_all sid set) m else m
  | none ↦ m
]

-- The sessions of a subscriber, as a caller with a fresh vector gets them.
abbrev pub sessions_of : Text → SubscriberIndex → List Text
sessions_of sub m = (get_subscriber_session_id sub [] m).1

abbrev pub listed : Text → Text → SubscriberIndex → Bool
listed sub sid m = contains sid (sessions_of sub m)

pub listed-insert_session :
    (sub jub sid tid : Text) (m : SubscriberIndex)
    → listed jub tid (insert_session sub sid m)
      ≡ (listed jub tid m || (text_eq sub jub && text_eq sid tid))
unfolding get_subscriber_session_id insert_session contains
listed-insert_session sub jub sid tid m = ground (
  arith,
  find-assign sub jub (set_insert sid (sessions_of sub m)) m,
  find-insert sub jub (sid ∷ []) m,
  contains-set_insert tid sid (sessions_of sub m),
  text_eq_iff sub jub,
  text_eq_iff sid tid,
  text_eq_iff tid sid,
)

pub listed-rm_subscriber_session_id :
    (sub jub sid tid : Text) (m : SubscriberIndex)
    → listed jub tid (rm_subscriber_session_id sub sid m)
      ≡ (listed jub tid m && not (text_eq sub jub && text_eq sid tid))
unfolding get_subscriber_session_id rm_subscriber_session_id contains
listed-rm_subscriber_session_id sub jub sid tid m = ground (
  arith,
  find-assign sub jub (erase_all sid (sessions_of sub m)) m,
  contains-erase_all tid sid (sessions_of sub m),
  text_eq_iff sub jub,
  text_eq_iff sid tid,
)
