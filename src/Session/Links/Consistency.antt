-- ===== src/Session/Links/Consistency.antt =====
-- What it means that both directions of the links of src/pcrf_session_cache_index.cpp agree: a
-- session stands in a parent's list exactly when the
-- parent is the one that the session's own link names.
use pcrf.Common.{
  ◌≡◌, Bool, false, ◌&&◌, ◌||◌, not, Option, none, some, List, [], ◌∷◌, ◌++◌, arith, if◌then◌else◌,
  Option-cases, inl, inr,
}
use pcrf.Common.Text.{Text, text_eq, text_eq_iff}
use pcrf.Common.Lists.{contains, erase_all, contains-append, contains-one, contains-erase_all}
use pcrf.Common.Map.{Map, find, assign, find-assign, find-insert}
use pcrf.Session.Links.{
  Links, rm_parent2child_link, mk_parent2child, link_child, mk_link2parent,
  get_linked_child_session_list,
}

-- The children of a session, as a caller with a fresh list gets them.
abbrev pub children : Text → Links → List Text
children par s = (get_linked_child_session_list par [] s).1

abbrev pub has_child : Text → Text → Links → Bool
has_child par sid s = contains sid (children par s)

abbrev pub is_some_text : Option Text → Text → Bool
is_some_text none x = false
is_some_text (some y) x = text_eq y x

abbrev pub has_parent : Text → Text → Links → Bool
has_parent sid par s = is_some_text (find sid s.child) par

-- The two maps agree.
abbrev pub IsConsistent : Links → Type 0
IsConsistent s = (par sid : Text) → has_child par sid s ≡ has_parent sid par s

has_child-mk_parent2child :
    (sid par q x : Text) (s : Links)
    → has_child q x (mk_parent2child sid par s)
      ≡ (has_child q x s || (text_eq par q && text_eq x sid))
unfolding mk_parent2child get_linked_child_session_list contains
has_child-mk_parent2child sid par q x s = ground (
  arith,
  find-assign par q (children par s ++ sid ∷ []) s.parent,
  find-insert par q (sid ∷ []) s.parent,
  contains-append x (children par s) (sid ∷ []),
  contains-one x sid,
  text_eq_iff par q,
)

pub has_child-rm_parent2child_link :
    (sid par q x : Text) (s : Links)
    → has_child q x (rm_parent2child_link sid par s)
      ≡ (has_child q x s && not (text_eq par q && text_eq sid x))
unfolding rm_parent2child_link get_linked_child_session_list contains
has_child-rm_parent2child_link sid par q x s = ground (
  arith,
  find-assign par q (erase_all sid (children par s)) s.parent,
  contains-erase_all x sid (children par s),
  text_eq_iff par q,
)

pub child-mk_parent2child :
    (sid par : Text) (s : Links) → (mk_parent2child sid par s).child ≡ s.child
unfolding mk_parent2child
child-mk_parent2child sid par s = ground arith

pub child-rm_parent2child_link :
    (sid par : Text) (s : Links) → (rm_parent2child_link sid par s).child ≡ s.child
unfolding rm_parent2child_link
child-rm_parent2child_link sid par s = ground arith

child-mk_parent2child-rm_parent2child_link :
    (sid par q : Text) (s : Links) (c : Map Text)
    → (mk_parent2child sid par (record (rm_parent2child_link sid q s) { child = c })).child ≡ c
child-mk_parent2child-rm_parent2child_link sid par q s c =
    child-mk_parent2child sid par (record (rm_parent2child_link sid q s) { child = c })

has_parent-link_child :
    (sid par q x : Text) (s : Links)
    → has_parent x q (link_child sid par s)
      ≡ (if text_eq sid x then text_eq par q else has_parent x q s)
unfolding link_child
has_parent-link_child sid par q x s = elim (Option-cases (find sid s.child)) [
  | inl fresh ↦ rw (fresh, link_child) (ground (arith, find-insert sid x par s.child))
  | inr (p, old) ↦
      rw (old, link_child)
        (ground (
          arith,
          child-mk_parent2child-rm_parent2child_link sid par p s
              (assign sid par (rm_parent2child_link sid p s).child),
          child-rm_parent2child_link sid p s,
          find-assign sid x par s.child,
          text_eq_iff sid x,
          text_eq_iff p par,
        ))
]

-- What a session's list gains and loses when the session is linked to another parent.
has_child-link_child :
    (sid par q x : Text) (s : Links)
    → has_child q x (link_child sid par s) ≡ (
        if text_eq sid x
        then (elim (find sid s.child) [
          | none ↦ has_child q x s
          | some p ↦
              if text_eq p par
              then has_child q x s
              else has_child q x s && not (text_eq p q) || text_eq par q
        ])
        else has_child q x s)
unfolding link_child get_linked_child_session_list
has_child-link_child sid par q x s = elim (Option-cases (find sid s.child)) [
  | inl fresh ↦ rw (fresh, link_child) (ground arith)
  | inr (p, old) ↦
      rw (old, link_child)
        (ground (
          arith,
          has_child-mk_parent2child sid par q x (record (rm_parent2child_link sid p s) {
            child = assign sid par (rm_parent2child_link sid p s).child;
          }),
          has_child-rm_parent2child_link sid p q x s,
          text_eq_iff sid x,
          text_eq_iff x sid,
        ))
]

-- mk_link2parent keeps the two maps in agreement, whether the session is new to the links, is
-- linked to the same parent again or moves to another one; its own link then names the given
-- parent, and the links of the other sessions are as they were.
pub mk_link2parent-IsConsistent :
    (sid par : Text) (s : Links)
    → IsConsistent s
    → IsConsistent (mk_link2parent sid (some par) s)
      × ((x q : Text)
          → has_parent x q (mk_link2parent sid (some par) s)
            ≡ (if text_eq sid x then text_eq par q else has_parent x q s))
unfolding mk_link2parent
mk_link2parent-IsConsistent sid par s h = (
  λ q x. ground (
    arith,
    h q x,
    has_child-link_child sid par q x (mk_parent2child sid par s),
    has_parent-link_child sid par q x (mk_parent2child sid par s),
    has_child-mk_parent2child sid par q x s,
    child-mk_parent2child sid par s,
    text_eq_iff sid x,
    text_eq_iff x sid,
  ),
  λ x q. ground (
    arith,
    has_parent-link_child sid par q x (mk_parent2child sid par s),
    child-mk_parent2child sid par s,
  ),
)
