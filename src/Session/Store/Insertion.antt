-- ===== src/Session/Store/Insertion.antt =====
-- What pcrf_session_cache_insert_local does to the cached records, its own and its children's.
use pcrf.Common.{
  ℕ, ◌≡◌, refl, Bool, true, false, Option, none, some, List, [], ◌∷◌, arith, if◌then◌else◌,
  Option-cases, inl, inr,
}
use pcrf.Common.Text.{Text, text_eq, text_eq_iff}
use pcrf.Common.Lists.{contains}
use pcrf.Common.Map.{Map, find, assign, insert, find-assign, find-insert}
use pcrf.Types.{OtlText, SessionCache}
use pcrf.Session.Links.{get_linked_child_session_list}
use pcrf.Session.Links.Consistency.{has_child}
use pcrf.Session.Store.{
  Store, take_new, merge_values, update_some_values, update_each, update_child, index_session,
  insert_local, map_option,
}

take_new-take_new : (a n : OtlText) → take_new (take_new a n) n ≡ take_new a n
unfolding take_new
take_new-take_new a n = ground arith

if_if {ℓ} :
    {A : Type ℓ} (b : Bool) (x y : A)
    → (if b then x else (if b then x else y)) ≡ (if b then x else y)
if_if true x y = refl
if_if false x y = refl

take_new_self : (a : OtlText) → take_new a a ≡ a
unfolding take_new
take_new_self a = ground arith

if_self {ℓ} : {A : Type ℓ} (b : Bool) (x : A) → (if b then x else x) ≡ x
if_self true x = refl
if_self false x = refl

-- A child that is listed twice is updated twice, to the same record.
merge_values-merge_values :
    (c n : SessionCache) → merge_values (merge_values c n) n ≡ merge_values c n
unfolding merge_values
merge_values-merge_values c n = simp (take_new-take_new, if_if)

merge_values_self : (c : SessionCache) → merge_values c c ≡ c
unfolding merge_values
merge_values_self c = simp (take_new_self, if_self)

-- The record of a session after the loop over the listed children.
find-update_each :
    (l : List Text) (n : SessionCache) (j : Text) (m : Map SessionCache)
    → find j (update_each l n m)
      ≡ (if contains j l then map_option (λ c. merge_values c n) (find j m) else find j m)
unfolding update_each update_some_values contains
find-update_each [] n j m = refl
find-update_each (sid ∷ l) n j m = elim (Option-cases (find sid m)) [
  | inl absent ↦
      rw (absent, update_some_values)
        (ground (arith, absent, find-update_each l n j m, text_eq_iff j sid))
  | inr (c, present) ↦
      rw (present, update_some_values)
        (ground (
          arith,
          present,
          find-update_each l n j (assign sid (merge_values c n) m),
          find-assign sid j (merge_values c n) m,
          merge_values-merge_values c n,
          text_eq_iff sid j,
          text_eq_iff j sid,
        ))
]

-- The record of `j` after the record `n` of `sid` has replaced another.
abbrev replaced : Text → SessionCache → Text → Store → Option SessionCache
replaced sid n j s =
    if has_child sid j s.links
    then map_option (λ c. merge_values c n) (find j s.sessions)
    else find j s.sessions

find-update_child :
    (sid : Text) (n : SessionCache) (j : Text) (s : Store)
    → find j (update_child sid n s).sessions ≡ replaced sid n j s
unfolding update_child get_linked_child_session_list contains
find-update_child sid n j s = elim (Option-cases (find sid s.links.parent)) [
  | inl childless ↦ ground (arith, childless)
  | inr (l, present) ↦ ground (arith, present, find-update_each l n j s.sessions)
]

-- After insert_local the session's record is the one given, whether the session was new or not.
-- If it was new, every other record is as before; if it replaced a record, the other records are
-- as before too, except that each session linked to it as a child takes over its values.
pub find-insert_local :
    (sid : Text) (n : SessionCache) (par : Option Text) (dialect : ℕ) (j : Text) (s : Store)
    → find j (insert_local sid n par dialect s).sessions ≡ (
        if text_eq sid j then some n else (elim (find sid s.sessions) [
          | none ↦ find j s.sessions
          | some _ ↦ replaced sid n j s
        ]))
unfolding insert_local index_session
find-insert_local sid n par dialect j s = elim (Option-cases (find sid s.sessions)) [
  | inl absent ↦ rw (absent, insert_local) (find-insert sid j n s.sessions absent)
  | inr (old, present) ↦
      rw (present, insert_local)
        (ground (
          arith,
          find-update_child sid n j (record s { sessions = assign sid n s.sessions }),
          find-assign sid j n s.sessions,
          merge_values_self n,
        ))
]

-- A session that is new to the cache is entered in the indexes.
pub insert_local_new :
    (sid : Text) (n : SessionCache) (par : Option Text) (dialect : ℕ) (s : Store)
    → find sid s.sessions ≡ none
    → insert_local sid n par dialect s
      ≡ index_session sid n par dialect (record s { sessions = insert sid n s.sessions })
unfolding insert_local
insert_local_new sid n par dialect s absent = rw (absent, insert_local)
