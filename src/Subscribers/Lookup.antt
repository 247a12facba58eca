-- ===== src/Subscribers/Lookup.antt =====
-- What pcrf_subscriber_cache_get_subscriber_id of src/cache/pcrf_subscriber_cache.cpp returns.
use pcrf.Common.{
  ℕ, ◌≡◌, ◌≢◌, refl, sym, ap, subst, ◌∙◌, Bool, true, false, ◌&&◌, ◌||◌, none, some, List, [], ◌∷◌,
  ◌++◌, if◌then◌else◌, arith, Option-cases, Bool-cases, inl, inr,
}
use pcrf.Common.Text.{Text, text_eq}
use pcrf.Common.Map.{Map, find, find-insert, insert-present}
use pcrf.Types.{OtlText, SubscriptionIdData, einval}
use pcrf.Subscribers.{
  SubscriptionMaps, SubscriptionRow, is_empty, subscriber_cache_insert, insert_row, load_list,
  check_data, then_check, result_of, get_subscriber_id,
}

-- What a map holds for a value, as a list of at most one identifier.
unfoldable pub found : Map Text → Text → List Text
found m x = elim (find x m) [ none ↦ [] | some id ↦ id ∷ [] ]

-- The identifiers that the maps hold for the data.
abbrev all_found : SubscriptionIdData → SubscriptionMaps → List Text
all_found d m =
    found m.imsi d.end_user_imsi.v
    ++ found m.e164 d.end_user_e164.v
    ++ found m.sip_uri d.end_user_sipuri.v
    ++ found m.nai d.end_user_nai.v
    ++ found m.user_private d.end_user_private.v

unfoldable all_equal : Text → List Text → Bool
all_equal x [] = true
all_equal x (y ∷ ys) = text_eq x y && all_equal x ys

-- The identifier that a list agrees on.
unfoldable agreed : List Text → ℕ × Text
unfolding all_equal
agreed [] = (0, [])
agreed (x ∷ xs) = if all_equal x xs then (0, x) else (einval, [])

-- No identifier is empty.
abbrev HasIds : Map Text → Type 0
HasIds m = (x : Text) → find x m ≢ some []

-- The checks, by the identifiers that are found.
run_found : List Text → Bool × Text → Bool × Text
run_found [] s = s
run_found (id ∷ ids) (false, sub) = (false, sub)
run_found (id ∷ ids) (true, sub) =
    run_found ids (if is_empty sub then (true, id) else (text_eq sub id, sub))

run_found-false : (ids : List Text) (sub : Text) → run_found ids (false, sub) ≡ (false, sub)
unfolding run_found
run_found-false [] sub = refl
run_found-false (id ∷ ids) sub = refl

run_found-append :
    (xs ys : List Text) (s : Bool × Text) → run_found (xs ++ ys) s ≡ run_found ys (run_found xs s)
unfolding run_found
run_found-append [] ys s = refl
run_found-append (x ∷ xs) ys (false, sub) = sym (run_found-false ys sub)
run_found-append (x ∷ xs) ys (true, sub) =
    run_found-append xs ys (if is_empty sub then (true, x) else (text_eq sub x, sub))

then_check-run_found :
    (m : Map Text) (f : OtlText) (s : Bool × Text) → then_check m f s ≡ run_found (found m f.v) s
unfolding run_found found then_check check_data
then_check-run_found m f (false, sub) = sym (run_found-false (found m f.v) sub)
then_check-run_found m f (true, sub) = elim (Option-cases (find f.v m)) [
  | inl absent ↦ ground (arith, absent)
  | inr (id, present) ↦ ground (arith, present)
]

abbrev NonEmpty : List Text → Type 0
NonEmpty [] = Unit {0}
NonEmpty (x ∷ xs) = (is_empty x ≡ false) × NonEmpty xs

run_found-some :
    (x : Text) (ids : List Text)
    → is_empty x ≡ false
    → run_found ids (true, x) ≡ (all_equal x ids, x)
unfolding run_found all_equal
run_found-some x [] e = refl
run_found-some x (id ∷ ids) e = elim (Bool-cases (text_eq x id)) [
  | inl same ↦ ground (arith, e, same, run_found-some x ids e)
  | inr other ↦ ground (arith, e, other, run_found-false ids x)
]

agreed-run_found :
    (ids : List Text) → NonEmpty ids → result_of (run_found ids (true, [])) ≡ agreed ids
unfolding run_found agreed result_of is_empty
agreed-run_found [] n = refl
agreed-run_found (x ∷ ids) n = ground (arith, run_found-some x ids n.0)

NonEmpty-append : (xs ys : List Text) → NonEmpty xs → NonEmpty ys → NonEmpty (xs ++ ys)
NonEmpty-append [] ys h k = k
NonEmpty-append (x ∷ xs) ys h k = (h.0, NonEmpty-append xs ys h.1 k)

is_empty_iff : (x : Text) → x ≢ [] → is_empty x ≡ false
unfolding is_empty
is_empty_iff [] h = elim (h refl) [ ]
is_empty_iff (a ∷ x) h = refl

found-none : (m : Map Text) (x : Text) → find x m ≡ none → found m x ≡ []
unfolding found
found-none m x e = ground (arith, e)

found-some : (m : Map Text) (x id : Text) → find x m ≡ some id → found m x ≡ id ∷ []
unfolding found
found-some m x id e = ground (arith, e)

NonEmpty-found : (m : Map Text) (x : Text) → HasIds m → NonEmpty (found m x)
NonEmpty-found m x h = elim (Option-cases (find x m)) [
  | inl absent ↦ subst NonEmpty (sym (found-none m x absent)) tt
  | inr (id, present) ↦
      subst NonEmpty (sym (found-some m x id present))
        (is_empty_iff id (λ e. h x (ground (arith, present, e))), tt)
]

then_check-after :
    (m : Map Text) (f : OtlText) (xs : List Text) (s t : Bool × Text)
    → t ≡ run_found xs s
    → then_check m f t ≡ run_found (xs ++ found m f.v) s
then_check-after m f xs s t h =
    then_check-run_found m f t ∙ rw (h, run_found-append xs (found m f.v) s) refl

-- Every map holds identifiers that are not empty.
abbrev AllHaveIds : SubscriptionMaps → Type 0
AllHaveIds m =
    HasIds m.e164 × HasIds m.imsi × HasIds m.sip_uri × HasIds m.nai × HasIds m.user_private

get_subscriber_id-AllHaveIds :
    (d : SubscriptionIdData) (m : SubscriptionMaps)
    → AllHaveIds m
    → get_subscriber_id d m ≡ agreed (all_found d m)
unfolding get_subscriber_id
get_subscriber_id-AllHaveIds d m h =
    let (a, b, c, e, f) = h in
    let s : Bool × Text = (true, []) in
    let i = found m.imsi d.end_user_imsi.v in
    let j = found m.e164 d.end_user_e164.v in
    let k = found m.sip_uri d.end_user_sipuri.v in
    let l = found m.nai d.end_user_nai.v in
    let o = found m.user_private d.end_user_private.v in
    let t1 = then_check m.imsi d.end_user_imsi s in
    let t2 = then_check m.e164 d.end_user_e164 t1 in
    let t3 = then_check m.sip_uri d.end_user_sipuri t2 in
    let t4 = then_check m.nai d.end_user_nai t3 in
    let e2 =
      then_check-after m.e164 d.end_user_e164 i s t1
        (then_check-run_found m.imsi d.end_user_imsi s) in
    let e3 = then_check-after m.sip_uri d.end_user_sipuri (i ++ j) s t2 e2 in
    let e4 = then_check-after m.nai d.end_user_nai (i ++ j ++ k) s t3 e3 in
    let e5 = then_check-after m.user_private d.end_user_private (i ++ j ++ k ++ l) s t4 e4 in
    ap result_of e5
    ∙ agreed-run_found (i ++ j ++ k ++ l ++ o) (
        NonEmpty-append (i ++ j ++ k ++ l) o
          (NonEmpty-append (i ++ j ++ k) l
            (NonEmpty-append (i ++ j) k
              (NonEmpty-append i j (NonEmpty-found m.imsi d.end_user_imsi.v b)
                (NonEmpty-found m.e164 d.end_user_e164.v a))
              (NonEmpty-found m.sip_uri d.end_user_sipuri.v c))
            (NonEmpty-found m.nai d.end_user_nai.v e))
          (NonEmpty-found m.user_private d.end_user_private.v f))

is_empty-some : (x : Text) → is_empty x ≡ false → some x ≢ some []
unfolding is_empty
is_empty-some [] h e = ground (arith, h)
is_empty-some (a ∷ x) h e = ground (arith, e)

HasIds-subscriber_cache_insert :
    (f : OtlText) (sub : Text) (m : Map Text) → HasIds m → HasIds (subscriber_cache_insert f sub m)
unfolding subscriber_cache_insert
HasIds-subscriber_cache_insert f sub m h x e = elim (Bool-cases (f.is_null || is_empty sub)) [
  | inl left_out ↦ h x (ground (arith, left_out, e))
  | inr entered ↦ elim (Option-cases (find f.v m)) [
    | inr (id, present) ↦ h x (ground (arith, entered, e, insert-present f.v sub id m present))
    | inl absent ↦ elim (Bool-cases (text_eq f.v x)) [
      | inl same ↦
          is_empty-some sub (ground (arith, entered))
            (ground (arith, entered, e, same, find-insert f.v x sub m absent))
      | inr other ↦ h x (ground (arith, entered, e, other, find-insert f.v x sub m absent))
    ]
  ]
]

AllHaveIds-load_list :
    (rs : List SubscriptionRow) (m : SubscriptionMaps) → AllHaveIds m → AllHaveIds (load_list rs m)
unfolding load_list insert_row
AllHaveIds-load_list [] m h = h
AllHaveIds-load_list (r ∷ rs) m h =
    let (a, b, c, d, e) = h in
    let sub = r.subscriber_id in
    AllHaveIds-load_list rs (insert_row r m) (
      HasIds-subscriber_cache_insert r.end_user_e164 sub m.e164 a,
      HasIds-subscriber_cache_insert r.end_user_imsi sub m.imsi b,
      HasIds-subscriber_cache_insert r.end_user_sip_uri sub m.sip_uri c,
      HasIds-subscriber_cache_insert r.end_user_nai sub m.nai d,
      HasIds-subscriber_cache_insert r.end_user_private sub m.user_private e,
    )

abbrev pub no_maps : SubscriptionMaps
no_maps = record { e164 = []; imsi = []; sip_uri = []; nai = []; user_private = [] }

-- With the maps that the cache has loaded: the look-up returns 0 with the identifier that all
-- maps which know a value of the data agree on, or with the empty one where none knows any; and
-- EINVAL with the empty identifier where two of them differ.
get_subscriber_id-agreed :
    (rs : List SubscriptionRow) (d : SubscriptionIdData)
    → get_subscriber_id d (load_list rs no_maps) ≡ agreed (all_found d (load_list rs no_maps))
unfolding find
get_subscriber_id-agreed rs d = get_subscriber_id-AllHaveIds d (load_list rs no_maps) (
    AllHaveIds-load_list rs no_maps (
      (λ x e. ground arith),
      (λ x e. ground arith),
      (λ x e. ground arith),
      (λ x e. ground arith),
      (λ x e. ground arith),
    ))
