-- ===== src/Rules/Loaded.antt =====
-- The rules that src/cache/pcrf_rule_cache.cpp loads, and the rules of a profile that
-- pcrf_server_create_abon_rule_list of src/pcrf_server.cpp takes from them.
use mathlib.Core.List.{append-nil, append_assoc}
use pcrf.Common.{
  ℕ, ◌≡◌, refl, sym, true, false, none, some, List, [], ◌∷◌, ◌++◌, ◌==◌, arith, inl, inr, ◌⊎◌,
  Option-cases, Bool-cases,
}
use pcrf.Common.Text.{Text, text_eq, text_eq_iff}
use pcrf.Common.Map.{find, insert, find-insert, insert-present}
use pcrf.Types.{AbonRule, gx_cisco_sce}
use pcrf.Rules.{
  RuleMap, RuleRow, SceRow, rule_of_row, rule_of_sce_row, insert_rows, insert_sce_rows,
  load_rule_list, get_rule_info, load_rule_info, server_load_rule_info, create_abon_rule_list,
}

-- A rule as the cache holds it under a name.
abbrev Cached : Text → AbonRule → Type 0
Cached name r = (r.is_relevant ≡ true) × (r.is_active ≡ false) × (r.rule_name ≡ name)

abbrev IsCache : RuleMap → Type 0
IsCache m = (name : Text) (r : AbonRule) → find name m ≡ some r → Cached name r

IsCache-insert :
    (k : Text) (v : AbonRule) (m : RuleMap) → Cached k v → IsCache m → IsCache (insert k v m)
IsCache-insert k v m c h name r e = elim (Option-cases (find k m)) [
  | inl missing ↦ elim (Bool-cases (text_eq k name)) [
    | inl same ↦ ground (arith, find-insert k name v m missing, (text_eq_iff k name).0 same)
    | inr other ↦ h name r (ground (arith, find-insert k name v m missing))
  ]
  | inr (w, present) ↦ h name r (ground (arith, insert-present k v w m present))
]

IsCache-insert_rows : (rows : List RuleRow) (m : RuleMap) → IsCache m → IsCache (insert_rows rows m)
unfolding insert_rows rule_of_row
IsCache-insert_rows [] m h = h
IsCache-insert_rows (row ∷ rows) m h =
    IsCache-insert_rows rows (insert row.rule_name (rule_of_row row) m)
      (IsCache-insert row.rule_name (rule_of_row row) m (refl, refl, refl) h)

IsCache-insert_sce_rows :
    (rows : List SceRow) (m : RuleMap) → IsCache m → IsCache (insert_sce_rows rows m)
unfolding insert_sce_rows rule_of_sce_row
IsCache-insert_sce_rows [] m h = h
IsCache-insert_sce_rows (row ∷ rows) m h =
    IsCache-insert_sce_rows rows (insert row.rule_name (rule_of_sce_row row) m)
      (IsCache-insert row.rule_name (rule_of_sce_row row) m (refl, refl, refl) h)

-- Every rule that the cache has loaded is held under its own name, relevant and not active.
load_rule_list-IsCache :
    (rows : List RuleRow) (sce : List SceRow) → IsCache (load_rule_list rows sce)
unfolding load_rule_list find
load_rule_list-IsCache rows sce =
    IsCache-insert_sce_rows sce (insert_rows rows [])
      (IsCache-insert_rows rows [] (λ name r e. ground arith))

-- The names of a list that the cache knows, in their order.
unfoldable pub known : RuleMap → List Text → List Text
known m [] = []
known m (name ∷ names) = elim (find name m) [ some _ ↦ name ∷ known m names | none ↦ known m names ]

-- Each rule of a list is relevant and not active, and the names of the rules are the given ones.
abbrev pub Loads : List Text → List AbonRule → Type 0
Loads [] [] = Unit {0}
Loads [] (r ∷ rs) = ⊥
Loads (x ∷ xs) [] = ⊥
Loads (x ∷ xs) (r ∷ rs) = Cached x r × Loads xs rs

Loads-append :
    (xs ys : List Text) (rs qs : List AbonRule)
    → Loads xs rs
    → Loads ys qs
    → Loads (xs ++ ys) (rs ++ qs)
Loads-append [] ys [] qs h k = k
Loads-append [] ys (r ∷ rs) qs h k = elim h [ ]
Loads-append (x ∷ xs) ys [] qs h k = elim h [ ]
Loads-append (x ∷ xs) ys (r ∷ rs) qs h k = (h.0, Loads-append xs ys rs qs h.1 k)

Loads-load_rule_info :
    (m : RuleMap) (names xs : List Text) (out : List AbonRule)
    → IsCache m
    → Loads xs out
    → Loads (xs ++ known m names) (load_rule_info m names out)
unfolding load_rule_info known get_rule_info
Loads-load_rule_info m [] xs out h l = rw (append-nil xs) l
Loads-load_rule_info m (name ∷ names) xs out h l = elim (Option-cases (find name m)) [
  | inl missing ↦ rw (load_rule_info, known, missing) (Loads-load_rule_info m names xs out h l)
  | inr (r, present) ↦
      rw (load_rule_info, known, present, sym (append_assoc xs (name ∷ []) (known m names)))
        (Loads-load_rule_info m names (xs ++ name ∷ []) (out ++ r ∷ []) h
          (Loads-append xs (name ∷ []) out (r ∷ []) l (h name r present, tt)))
]

List-cases : (l : List AbonRule) → (l ≡ []) ⊎ ((r : AbonRule) × (rs : List AbonRule) × (l ≡ r ∷ rs))
List-cases [] = inl refl
List-cases (r ∷ rs) = inr (r, rs, refl)

server_load_rule_info-load_rule_info :
    (m : RuleMap) (names : List Text) (dialect : ℕ)
    → (dialect == gx_cisco_sce) ≡ false
    → server_load_rule_info m names dialect [] ≡ load_rule_info m names []
unfolding server_load_rule_info load_rule_info
server_load_rule_info-load_rule_info m [] dialect d = refl
server_load_rule_info-load_rule_info m (name ∷ names) dialect d =
    elim (List-cases (load_rule_info m (name ∷ names) [])) [
      | inl e ↦ rw (server_load_rule_info, e) refl
      | inr (r, rs, e) ↦ rw (server_load_rule_info, e, d) refl
    ]

-- For a dialect other than GX_CISCO_SCE, the rules of a profile are those of its names that the
-- cache knows, in their order, relevant and not active; what the list held before is gone.
pub create_abon_rule_list-Loads :
    (rows : List RuleRow) (sce : List SceRow) (names : List Text) (dialect : ℕ)
    (out : List AbonRule)
    → (dialect == gx_cisco_sce) ≡ false
    → Loads
        (known (load_rule_list rows sce) names)
        (create_abon_rule_list (load_rule_list rows sce) names dialect out)
unfolding create_abon_rule_list known
create_abon_rule_list-Loads rows sce names dialect out d =
    rw (server_load_rule_info-load_rule_info (load_rule_list rows sce) names dialect d) (
      Loads-load_rule_info (load_rule_list rows sce) names [] [] (load_rule_list-IsCache rows sce)
        tt)
