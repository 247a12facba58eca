-- ===== src/Session/Links/Removal.antt =====
-- remove_link of src/pcrf_session_cache_index.cpp.
use pcrf.Common.{
  ◌≡◌, refl, true, false, ◌&&◌, not, none, some, List, [], ◌∷◌, arith, if◌then◌else◌, Option-cases,
  inl, inr,
}
use pcrf.Common.Text.{Text, text_eq, text_eq_iff}
use pcrf.Common.Lists.{contains, erase_all}
use pcrf.Common.Map.{Map, find, erase, find-erase, find-assign}
use pcrf.Session.Links.{
  Links, rm_parent2child_link, unlink_children, remove_link, get_linked_child_session_list,
}
use pcrf.Session.Links.Consistency.{
  children, has_child, has_parent, is_some_text, IsConsistent, has_child-rm_parent2child_link,
  child-rm_parent2child_link,
}

-- The loop drops the links of the listed sessions that name `sid`, and no other.
find-unlink_children :
    (sid x : Text) (cs : List Text) (child : Map Text)
    → find x (unlink_children sid cs child)
      ≡ (if contains x cs && is_some_text (find x child) sid then none else find x child)
unfolding unlink_children contains
find-unlink_children sid x [] child = refl
find-unlink_children sid x (c ∷ cs) child =
    let rest : Map Text = elim (find c child) [
      | some par ↦ if text_eq par sid then erase c child else child
      | none ↦ child
    ] in
    ground (
      arith,
      find-unlink_children sid x cs rest,
      find-erase c x child,
      text_eq_iff c x,
      text_eq_iff x c,
    )

has_child-remove_link :
    (sid q x : Text) (s : Links)
    → has_child q x (remove_link sid s) ≡ (
        if text_eq sid q then false else (elim (find sid s.parent) [
          | some _ ↦ has_child q x s
          | none ↦ has_child q x s && not (text_eq sid x && has_parent sid q s)
        ]))
unfolding remove_link get_linked_child_session_list contains
has_child-remove_link sid q x s = elim (Option-cases (find sid s.parent)) [
  | inl absent ↦ elim (Option-cases (find sid s.child)) [
    | inl orphan ↦ rw (absent, orphan, remove_link) (ground (arith, text_eq_iff sid q))
    | inr (par, linked) ↦
        rw (absent, linked, remove_link)
          (ground (
            arith,
            absent,
            has_child-rm_parent2child_link sid par q x s,
            text_eq_iff sid q,
            text_eq_iff par q,
          ))
  ]
  | inr (l, present) ↦ rw (present, remove_link) (ground (arith, find-erase sid q s.parent))
]

has_parent-remove_link :
    (sid q x : Text) (s : Links)
    → has_parent x q (remove_link sid s) ≡ (elim (find sid s.parent) [
      | some l ↦ has_parent x q s && not (contains x l && has_parent x sid s)
      | none ↦ has_parent x q s && not (text_eq sid x)
    ])
unfolding remove_link
has_parent-remove_link sid q x s = elim (Option-cases (find sid s.parent)) [
  | inl absent ↦ elim (Option-cases (find sid s.child)) [
    | inl orphan ↦ rw (absent, orphan, remove_link) (ground (arith, orphan, text_eq_iff sid x))
    | inr (par, linked) ↦
        rw (absent, linked, remove_link)
          (ground (
            arith,
            child-rm_parent2child_link sid par s,
            find-erase sid x s.child,
            text_eq_iff sid x,
          ))
  ]
  | inr (l, present) ↦
      rw (present, remove_link) (ground (arith, find-unlink_children sid x l s.child))
]

-- A session has one parent at most.
has_parent_unique :
    (x q r : Text) (s : Links)
    → text_eq q r ≡ false
    → has_parent x q s ≡ true
    → has_parent x r s ≡ false
has_parent_unique x q r s d h = elim (Option-cases (find x s.child)) [
  | inl absent ↦ rw absent
  | inr (p, linked) ↦
      rw linked (ground (arith, linked, text_eq_iff p q, text_eq_iff p r, text_eq_iff q r))
]

children-remove_link : (sid : Text) (s : Links) → children sid (remove_link sid s) ≡ []
unfolding remove_link get_linked_child_session_list rm_parent2child_link
children-remove_link sid s = elim (Option-cases (find sid s.parent)) [
  | inl absent ↦ elim (Option-cases (find sid s.child)) [
    | inl orphan ↦ rw (absent, orphan, remove_link) (ground (arith, absent))
    | inr (par, linked) ↦
        rw (absent, linked, remove_link)
          (ground (
            arith,
            absent,
            find-assign par sid (erase_all sid (children par s)) s.parent,
            text_eq_iff par sid,
          ))
  ]
  | inr (l, present) ↦
      rw (present, remove_link) (ground (arith, find-erase sid sid s.parent, text_eq_iff sid sid))
]

-- A session whose entry in g_mapParent is `l` has just the children in `l`.
has_child-found :
    (sid x : Text) (l : List Text) (s : Links)
    → find sid s.parent ≡ some l
    → has_child sid x s ≡ contains x l
unfolding get_linked_child_session_list
has_child-found sid x l s h = ground arith

has_child-absent : (sid x : Text) (s : Links) → find sid s.parent ≡ none → has_child sid x s ≡ false
unfolding get_linked_child_session_list contains
has_child-absent sid x s h = ground arith

remove_link-step :
    (sid q x : Text) (s : Links)
    → IsConsistent s
    → (has_child q x (remove_link sid s) ≡ has_parent x q (remove_link sid s))
      × (has_parent x sid (remove_link sid s) ≡ false)
      × (text_eq sid x ≡ false
          → text_eq sid q ≡ false
          → has_parent x q (remove_link sid s) ≡ has_parent x q s)
remove_link-step sid q x s h =
    rw
      (
        has_child-remove_link sid q x s,
        has_parent-remove_link sid q x s,
        has_parent-remove_link sid sid x s,
      )
      (elim (Option-cases (find sid s.parent)) [
        | inl absent ↦ rw absent (
            ground (
              arith,
              h sid x,
              h q x,
              h sid sid,
              has_child-absent sid x s absent,
              has_child-absent sid sid s absent,
              has_parent_unique x sid q s,
              text_eq_iff sid x,
              text_eq_iff sid q,
            ))
        | inr (l, present) ↦ rw present (
            ground (
              arith,
              h sid x,
              h q x,
              has_child-found sid x l s present,
              has_parent_unique x sid q s,
              text_eq_iff sid q,
            ))
      ])

-- remove_link keeps the two maps in agreement. Afterwards the session has no child, and no link
-- names it as the parent.
pub remove_link-IsConsistent :
    (sid : Text) (s : Links)
    → IsConsistent s
    → IsConsistent (remove_link sid s)
      × (children sid (remove_link sid s) ≡ [])
      × ((x : Text) → has_parent x sid (remove_link sid s) ≡ false)
remove_link-IsConsistent sid s h = (
  λ q x. (remove_link-step sid q x s h).0,
  children-remove_link sid s,
  λ x. (remove_link-step sid x x s h).1,
)

-- remove_link leaves the links between other sessions as they were.
has_parent-remove_link_other :
    (sid x q : Text) (s : Links)
    → IsConsistent s
    → text_eq sid x ≡ false
    → text_eq sid q ≡ false
    → has_parent x q (remove_link sid s) ≡ has_parent x q s
has_parent-remove_link_other sid x q s h = (remove_link-step sid q x s h).2

-- A session that is not itself a parent has no parent afterwards.
has_parent-remove_link_child :
    (sid q : Text) (s : Links)
    → find sid s.parent ≡ none
    → has_parent sid q (remove_link sid s) ≡ false
has_parent-remove_link_child sid q s absent =
    rw (has_parent-remove_link sid q sid s, absent) (ground (arith, text_eq_iff sid sid))
