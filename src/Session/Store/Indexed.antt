-- ===== src/Session/Store/Indexed.antt =====
-- The invariant of the store of src/pcrf_session_cache.cpp: the indexes list cached sessions only,
-- under the keys that their records hold.
use pcrf.Common.{
  ℕ, ◌≡◌, ◌≢◌, Bool, true, false, ◌&&◌, ◌||◌, not, Option, none, some, arith, Option-cases, inl,
  inr,
}
use pcrf.Common.Text.{Text, text_eq, text_eq_iff}
use pcrf.Common.Map.{find, find-erase, find-insert}
use pcrf.Types.{SessionCache}
use pcrf.Session.FramedIp.{listed-insert_session, listed-remove_session}
use pcrf.Session.Subscribers
use pcrf.Session.Links.{mk_link2parent}
use pcrf.Session.Links.Consistency.{IsConsistent, has_child, mk_link2parent-IsConsistent}
use pcrf.Session.Links.Removal.{remove_link-IsConsistent}
use pcrf.Session.Store.{
  Store, merge_values, index_session, insert_local, unindex_session, update_child, remove_local,
}
use pcrf.Session.Store.Insertion.{find-insert_local, insert_local_new}
use pcrf.Session.Store.Lifecycle.{by_ip, by_subscriber}

abbrev has_address : Text → Option SessionCache → Bool
has_address ip none = false
has_address ip (some c) = text_eq c.framed_ip_addr.v ip

abbrev has_subscriber : Text → Option SessionCache → Bool
has_subscriber sub none = false
has_subscriber sub (some c) = not c.subscriber_id.is_null && text_eq c.subscriber_id.v sub

pub record IsIndexed (s : Store) : Type 0 where
  pub addresses :
      (ip sid : Text) → by_ip ip sid s ≡ true → has_address ip (find sid s.sessions) ≡ true
  pub subscribers :
      (sub sid : Text)
      → by_subscriber sub sid s ≡ true
      → has_subscriber sub (find sid s.sessions) ≡ true
  pub linked : IsConsistent s.links

-- Every session whose record insert_local may write, the session itself and its children, is
-- listed under the new record's address and subscriber only.
pub record KeepsKeys (sid : Text) (c : SessionCache) (s : Store) : Type 0 where
  pub address :
      (ip j : Text)
      → by_ip ip j s ≡ true
      → (text_eq sid j || has_child sid j s.links) ≡ true
      → text_eq c.framed_ip_addr.v ip ≡ true
  pub subscriber :
      (sub j : Text)
      → by_subscriber sub j s ≡ true
      → (text_eq sid j || has_child sid j s.links) ≡ true
      → (not c.subscriber_id.is_null && text_eq c.subscriber_id.v sub) ≡ true

-- The indexes and the links of a session that replaces a record stay as they are.
insert_local_old :
    (sid : Text) (c old : SessionCache) (par : Option Text) (dialect : ℕ) (s : Store)
    → find sid s.sessions ≡ some old
    → insert_local sid c par dialect s
      ≡ record s { sessions = (insert_local sid c par dialect s).sessions }
unfolding insert_local update_child
insert_local_old sid c old par dialect s present = ground (arith, present)

has_address-merge :
    (ip : Text) (x c : SessionCache)
    → text_eq x.framed_ip_addr.v ip ≡ true
    → text_eq c.framed_ip_addr.v ip ≡ true
    → text_eq (merge_values x c).framed_ip_addr.v ip ≡ true
unfolding merge_values
has_address-merge ip x c h k = ground arith

has_subscriber-merge :
    (sub : Text) (x c : SessionCache)
    → has_subscriber sub (some x) ≡ true
    → has_subscriber sub (some c) ≡ true
    → has_subscriber sub (some (merge_values x c)) ≡ true
unfolding merge_values
has_subscriber-merge sub x c h k = ground arith

module _ (sid : Text) (c : SessionCache) (par : Option Text) (dialect : ℕ) (s : Store)
    (v : IsIndexed s) where
  insert_new-addresses :
      (ip x : Text)
      → find sid s.sessions ≡ none
      → by_ip ip x (insert_local sid c par dialect s) ≡ true
      → has_address ip (find x (insert_local sid c par dialect s).sessions) ≡ true
  unfolding index_session
  insert_new-addresses ip x absent = rw (insert_local_new sid c par dialect s absent) (λ h. ground (
    arith,
    v.addresses ip x,
    listed-insert_session c.framed_ip_addr.v ip sid x s.framed_ip,
    find-insert sid x c s.sessions,
    text_eq_iff sid x,
    text_eq_iff x sid,
  ))

  insert_new-subscribers :
      (sub x : Text)
      → find sid s.sessions ≡ none
      → by_subscriber sub x (insert_local sid c par dialect s) ≡ true
      → has_subscriber sub (find x (insert_local sid c par dialect s).sessions) ≡ true
  unfolding index_session
  insert_new-subscribers sub x absent = rw (insert_local_new sid c par dialect s absent) (λ h.
      ground (
        arith,
        v.subscribers sub x,
        Subscribers.listed-insert_session c.subscriber_id.v sub sid x s.subscribers,
        find-insert sid x c s.sessions,
        text_eq_iff sid x,
      ))

  insert_old-addresses :
      (ip x : Text) (old : SessionCache)
      → find sid s.sessions ≡ some old
      → KeepsKeys sid c s
      → by_ip ip x s ≡ true
      → has_address ip (find x (insert_local sid c par dialect s).sessions) ≡ true
  insert_old-addresses ip x old present k h = ground (
    arith,
    present,
    v.addresses ip x,
    k.address ip x,
    find-insert_local sid c par dialect x s,
    has_address-merge ip (elim (find x s.sessions) [ some y ↦ y | none ↦ c ]) c,
  )

  insert_old-subscribers :
      (sub x : Text) (old : SessionCache)
      → find sid s.sessions ≡ some old
      → KeepsKeys sid c s
      → by_subscriber sub x s ≡ true
      → has_subscriber sub (find x (insert_local sid c par dialect s).sessions) ≡ true
  insert_old-subscribers sub x old present k h = ground (
    arith,
    present,
    v.subscribers sub x,
    k.subscriber sub x,
    find-insert_local sid c par dialect x s,
    has_subscriber-merge sub (elim (find x s.sessions) [ some y ↦ y | none ↦ c ]) c,
  )

new_links :
    (sid : Text) (c : SessionCache) (par : Option Text) (dialect : ℕ) (s : Store)
    → IsIndexed s
    → IsConsistent (index_session sid c par dialect s).links
unfolding index_session mk_link2parent
new_links sid c none dialect s v = v.linked
new_links sid c (some p) dialect s v = (mk_link2parent-IsConsistent sid p s.links v.linked).0

-- insert_local keeps the invariant: for a new session always, and for one that replaces a record
-- if the sessions that it writes to are listed under the new record's keys only.
pub insert_local-IsIndexed :
    (sid : Text) (c : SessionCache) (par : Option Text) (dialect : ℕ) (s : Store)
    → IsIndexed s
    → (find sid s.sessions ≢ none → KeepsKeys sid c s)
    → IsIndexed (insert_local sid c par dialect s)
unfolding index_session
insert_local-IsIndexed sid c par dialect s v k = elim (Option-cases (find sid s.sessions)) [
  | inl absent ↦ record {
    addresses = λ ip x. insert_new-addresses sid c par dialect s v ip x absent;
    subscribers = λ sub x. insert_new-subscribers sid c par dialect s v sub x absent;
    linked = linked_new absent;
  }
  | inr (old, present) ↦ rw (insert_local_old sid c old par dialect s present) (record {
    addresses = λ ip x. insert_old-addresses sid c par dialect s v ip x old present (k (λ e. cc));
    subscribers =
        λ sub x. insert_old-subscribers sid c par dialect s v sub x old present (k (λ e. cc));
    linked = v.linked;
  })
]
  where
    linked_new : find sid s.sessions ≡ none → IsConsistent (insert_local sid c par dialect s).links
    linked_new absent =
        rw (insert_local_new sid c par dialect s absent) (new_links sid c par dialect s v)

-- remove_local keeps the invariant, whether it finds the session or not.
remove_local-IsIndexed : (sid : Text) (s : Store) → IsIndexed s → IsIndexed (remove_local sid s).1
unfolding remove_local unindex_session
remove_local-IsIndexed sid s v = elim (Option-cases (find sid s.sessions)) [
  | inl absent ↦
      rw (absent, remove_local)
        (record {
          addresses = v.addresses;
          subscribers = v.subscribers;
          linked = (remove_link-IsConsistent sid s.links v.linked).0;
        })
  | inr (c, present) ↦
      rw (present, remove_local)
        (record {
          addresses = λ ip x h. ground (
            arith,
            present,
            v.addresses ip x,
            listed-remove_session c.framed_ip_addr.v ip sid x s.framed_ip,
            find-erase sid x s.sessions,
            text_eq_iff sid x,
          );
          subscribers = λ sub x h. ground (
            arith,
            present,
            v.subscribers sub x,
            Subscribers.listed-rm_subscriber_session_id c.subscriber_id.v sub sid x s.subscribers,
            find-erase sid x s.sessions,
            text_eq_iff sid x,
          );
          linked = (remove_link-IsConsistent sid s.links v.linked).0;
        })
]
