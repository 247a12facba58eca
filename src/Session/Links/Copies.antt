-- ===== src/Session/Links/Copies.antt =====
-- How often mk_link2parent of src/pcrf_session_cache_index.cpp puts a session in a parent's list.
use pcrf.Common.{
  ◌+◌, ◌≡◌, false, none, some, [], ◌∷◌, ◌++◌, arith, if◌then◌else◌, Option-cases, inl, inr,
}
use pcrf.Common.Text.{Text, text_eq, text_eq_refl}
use pcrf.Common.Lists.{count, erase_all, count-append}
use pcrf.Common.Map.{find, assign, find-assign, find-insert}
use pcrf.Session.Links.{
  Links, rm_parent2child_link, mk_parent2child, link_child, mk_link2parent,
  get_linked_child_session_list,
}
use pcrf.Session.Links.Consistency.{children, child-mk_parent2child}

count-mk_parent2child :
    (sid par : Text) (s : Links)
    → count sid (children par (mk_parent2child sid par s)) ≡ count sid (children par s) + 1
unfolding mk_parent2child get_linked_child_session_list count
count-mk_parent2child sid par s = ground (
  arith,
  find-assign par par (children par s ++ sid ∷ []) s.parent,
  find-insert par par (sid ∷ []) s.parent,
  count-append sid (children par s) (sid ∷ []),
  text_eq_refl par,
  text_eq_refl sid,
)

children-rm_parent2child_link :
    (sid p par : Text) (s : Links)
    → text_eq p par ≡ false
    → children par (rm_parent2child_link sid p s) ≡ children par s
unfolding rm_parent2child_link get_linked_child_session_list
children-rm_parent2child_link sid p par s d =
    ground (arith, find-assign p par (erase_all sid (children p s)) s.parent)

-- mk_link2parent adds the session to the list of its parent once if the session was not linked;
-- once more if it is already linked to this parent, so that the list then holds it twice; and
-- twice if it is moved here from another parent.
pub count-mk_link2parent :
    (sid par : Text) (s : Links)
    → count sid (children par (mk_link2parent sid (some par) s))
      ≡ count sid (children par s)
        + (elim (find sid s.child) [ none ↦ 1 | some p ↦ if text_eq p par then 1 else 2 ])
unfolding mk_link2parent link_child get_linked_child_session_list
count-mk_link2parent sid par s =
    let a = mk_parent2child sid par s in
    elim (Option-cases (find sid s.child)) [
      | inl fresh ↦ ground (arith, count-mk_parent2child sid par s, child-mk_parent2child sid par s)
      | inr (p, old) ↦ ground (
        arith,
        count-mk_parent2child sid par s,
        child-mk_parent2child sid par s,
        count-mk_parent2child sid par (record (rm_parent2child_link sid p a) {
          child = assign sid par (rm_parent2child_link sid p a).child;
        }),
        children-rm_parent2child_link sid p par a,
      )
    ]
