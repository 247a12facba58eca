-- ===== src/Rules/Keys.antt =====
-- The monitoring keys that pcrf_make_mk_list of src/pcrf_server.cpp collects.
use pcrf.Common.{
  ◌≡◌, refl, sym, Bool, false, not, ◌&&◌, ◌||◌, Option, none, some, List, [], ◌∷◌, if◌then◌else◌,
  arith, inl, inr, Option-cases, Bool-cases,
}
use pcrf.Common.Text.{Text, text_eq, text_eq_comm, text_eq_iff}
use pcrf.Common.Lists.{contains}
use pcrf.Common.Map.{Map, find, insert, find-insert, insert-present}
use pcrf.Types.{AbonRule}
use pcrf.Rules.{insert_keys, make_mk_list}

-- Whether a rule that is to be installed has the key.
unfoldable pub is_needed : Text → List AbonRule → Bool
is_needed k [] = false
is_needed k (r ∷ rs) =
    (r.is_relevant && not r.is_active && contains k r.monit_key) || is_needed k rs

-- What a look-up gives if the key is added where it is missing.
abbrev or_new {ℓ} : {V : Type ℓ} → Bool → V → Option V → Option V
or_new added v none = if added then some v else none
or_new added v (some w) = some w

module _ {ℓ} {V : Type ℓ} (v : V) where
  or_new-false : (o : Option V) → or_new false v o ≡ o
  or_new-false none = refl
  or_new-false (some w) = refl

  find-insert_new :
      (k j : Text) (m : Map V) → find j (insert k v m) ≡ or_new (text_eq j k) v (find j m)
  find-insert_new k j m = elim (Option-cases (find k m)) [
    | inl missing ↦ rw (find-insert k j v m missing) (elim (Bool-cases (text_eq k j)) [
      | inl same ↦ rw (text_eq_comm j k, same, sym ((text_eq_iff k j).0 same), missing) refl
      | inr other ↦ rw (text_eq_comm j k, other, or_new-false (find j m)) refl
    ])
    | inr (w, present) ↦ rw (insert-present k v w m present) (elim (Bool-cases (text_eq j k)) [
      | inl same ↦ rw (same, (text_eq_iff j k).0 same, present) refl
      | inr other ↦ rw (other, or_new-false (find j m)) refl
    ])
  ]

  or_new-or_new : (a b : Bool) (o : Option V) → or_new a v (or_new b v o) ≡ or_new (b || a) v o
  or_new-or_new a b none = ground arith
  or_new-or_new a b (some w) = refl

  find-insert_keys :
      (ks : List Text) (j : Text) (m : Map V)
      → find j (insert_keys v ks m) ≡ or_new (contains j ks) v (find j m)
  unfolding insert_keys contains
  find-insert_keys [] j m = rw (or_new-false (find j m)) refl
  find-insert_keys (k ∷ ks) j m =
      rw
        (
          find-insert_keys ks j (insert k v m),
          find-insert_new k j m,
          or_new-or_new (contains j ks) (text_eq j k) (find j m),
        )
        refl

  -- After pcrf_make_mk_list the session has each monitoring key it had, with its data, and in
  -- addition exactly the keys of the relevant rules that are not active, as new entries.
  pub find-make_mk_list :
      (rs : List AbonRule) (j : Text) (m : Map V)
      → find j (make_mk_list v rs m) ≡ or_new (is_needed j rs) v (find j m)
  unfolding make_mk_list is_needed
  find-make_mk_list [] j m = rw (or_new-false (find j m)) refl
  find-make_mk_list (r ∷ rs) j m = elim (Bool-cases (r.is_relevant && not r.is_active)) [
    | inl installed ↦
        rw
          (
            installed,
            find-make_mk_list rs j (insert_keys v r.monit_key m),
            find-insert_keys r.monit_key j m,
            or_new-or_new (is_needed j rs) (contains j r.monit_key) (find j m),
          )
          refl
    | inr kept ↦ rw (kept, find-make_mk_list rs j m) refl
  ]
