-- ===== src/Session/Links.antt =====
-- The links between IP-CAN and AF sessions of src/pcrf_session_cache_index.cpp (g_mapParent,
-- g_mapChild).
pub mod Consistency
pub mod Removal
pub mod Copies
use pcrf.Common.{ℕ, Bool, ◌&&◌, Option, none, some, List, [], ◌∷◌, ◌++◌, if◌then◌else◌}
use pcrf.Common.Text.{Text, text_eq}
use pcrf.Common.Lists.{erase_all}
use pcrf.Common.Map.{Map, find, assign, insert, erase}
use pcrf.Types.{enodata}

pub record Links : Type 0 where
  pub parent : Map (List Text)
  pub child : Map Text

-- rm_parent2child_link.
unfoldable pub rm_parent2child_link : Text → Text → Links → Links
rm_parent2child_link sid par s = elim (find par s.parent) [
  | some l ↦ record s { parent = assign par (erase_all sid l) s.parent }
  | none ↦ s
]

-- mk_parent2child.
unfoldable pub mk_parent2child : Text → Text → Links → Links
mk_parent2child sid par s = elim (find par s.parent) [
  | some l ↦ record s { parent = assign par (l ++ sid ∷ []) s.parent }
  | none ↦ record s { parent = insert par (sid ∷ []) s.parent }
]

-- The part of mk_link2parent after the link to the child: g_mapChild.insert and its outcome.
unfoldable pub link_child : Text → Text → Links → Links
unfolding rm_parent2child_link mk_parent2child
link_child sid par s = elim (find sid s.child) [
  | none ↦ record s { child = insert sid par s.child }
  | some previous ↦
      if text_eq previous par
      then s
      else (let unlinked = rm_parent2child_link sid previous s in
          mk_parent2child sid par (record unlinked { child = assign sid par unlinked.child }))
]

-- mk_link2parent; `none` is a null pointer.
unfoldable pub mk_link2parent : Text → Option Text → Links → Links
unfolding link_child mk_parent2child
mk_link2parent sid none s = s
mk_link2parent sid (some par) s = link_child sid par (mk_parent2child sid par s)

-- The loop of remove_link over the children of `sid`.
unfoldable pub unlink_children : Text → List Text → Map Text → Map Text
unlink_children sid [] child = child
unlink_children sid (c ∷ cs) child = unlink_children sid cs (elim (find c child) [
  | some par ↦ if text_eq par sid then erase c child else child
  | none ↦ child
])

-- remove_link.
unfoldable pub remove_link : Text → Links → Links
unfolding unlink_children rm_parent2child_link
remove_link sid s = elim (find sid s.parent) [
  | some l ↦ record { parent = erase sid s.parent; child = unlink_children sid l s.child }
  | none ↦ elim (find sid s.child) [
    | some par ↦
        let unlinked = rm_parent2child_link sid par s in
        record unlinked { child = erase sid unlinked.child }
    | none ↦ s
  ]
]

-- get_linked_child_session_list: the result code and the out-parameter.
unfoldable pub get_linked_child_session_list : Text → List Text → Links → ℕ × List Text
get_linked_child_session_list sid out s = elim (find sid s.parent) [
  | some l ↦ (0, l)
  | none ↦ (enodata, out)
]

-- get_linked_parent_session.
unfoldable pub get_linked_parent_session : Text → Text → Links → ℕ × Text
get_linked_parent_session sid out s = elim (find sid s.child) [
  | some par ↦ (0, par)
  | none ↦ (enodata, out)
]
