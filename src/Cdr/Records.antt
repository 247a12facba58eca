-- ===== src/Cdr/Records.antt =====
-- Reading the records of src/pcrf_cdr.cpp again.
use mathlib.Core.List.{append_assoc}
use pcrf.Common.{
  ℕ, zero, suc, ◌+◌, ◌/◌, ◌%◌, ◌≤◌, ◌<◌, ltb, ◌≡◌, refl, ap, ◌∙◌, Bool, true, ◌&&◌, not, Option,
  none, some, List, [], ◌∷◌, ◌++◌, ◌==◌, if◌then◌else◌, arith, Bool-cases, inl, inr,
}
use pcrf.Common.Text.{Text}
use pcrf.Types.{SessionInfo, initial_request, termination_request}
use pcrf.Common.Lists.{length}
use pcrf.Common.Decimal.{decimal, decimal-small, decimal-step}
use pcrf.Cdr.{
  number_text, tab, newline, make_record, common_part, time_stamp, otl_text, address_text,
}

-- Whether a text has neither a tab nor a newline in it.
unfoldable pub is_plain : Text → Bool
is_plain [] = true
is_plain (c ∷ x) = (not (c == tab) && not (c == newline)) && is_plain x

-- The fields of a line up to its newline: the first one, and those after it.
unfoldable pub read_fields : Text → Text × List Text
read_fields [] = ([], [])
read_fields (c ∷ x) =
    let (first, more) = read_fields x in
    if c == newline then ([], []) else if c == tab then ([], first ∷ more) else (c ∷ first, more)

read_fields-newline : (x : Text) → is_plain x ≡ true → read_fields (x ++ (newline ∷ [])) ≡ (x, [])
unfolding is_plain read_fields
read_fields-newline [] h = refl
read_fields-newline (c ∷ x) h = ground (arith, read_fields-newline x)

read_fields-tab :
    (x y : Text)
    → is_plain x ≡ true
    → read_fields (x ++ (tab ∷ y)) ≡ (x, (read_fields y).0 ∷ (read_fields y).1)
unfolding is_plain read_fields
read_fields-tab [] y h = refl
read_fields-tab (c ∷ x) y h = ground (arith, read_fields-tab x y)

-- What the record of a session says, as one field first and those after it.
unfoldable pub fields_of : ℕ → SessionInfo → ℕ → Option (ℕ × ℕ) → Text × List Text
fields_of request_type s address now =
    if request_type == initial_request
    then (
      b'1' ∷ [],
      s.session_id
          ∷ (time_stamp now
              ∷ (otl_text s.subscription_data.end_user_imsi
                  ∷ (address_text address
                      ∷ (otl_text s.imei ∷ (otl_text s.called_station_id ∷ []))))),
    )
    else if request_type == termination_request
    then (
      b'3' ∷ [],
      s.session_id ∷ (time_stamp now ∷ (otl_text s.subscription_data.end_user_imsi ∷ [])),
    )
    else ([], [])

-- Of the texts that a record takes over, none has a tab or a newline.
pub record IsPlain (s : SessionInfo) : Type 0 where
  pub id_plain : is_plain s.session_id ≡ true
  pub imsi_plain : is_plain (otl_text s.subscription_data.end_user_imsi) ≡ true
  pub imei_plain : is_plain (otl_text s.imei) ≡ true
  pub apn_plain : is_plain (otl_text s.called_station_id) ≡ true

is_plain-append : (x y : Text) → is_plain x ≡ true → is_plain y ≡ true → is_plain (x ++ y) ≡ true
unfolding is_plain
is_plain-append [] y h k = k
is_plain-append (c ∷ x) y h k = ground (arith, is_plain-append x y)

is_plain-digit :
    (x : Text) (d : ℕ) → is_plain x ≡ true → d < 10 → is_plain (x ++ ((48 + d) ∷ [])) ≡ true
unfolding is_plain
is_plain-digit x d h k = is_plain-append x ((48 + d) ∷ []) h (ground arith)

is_plain-decimal : (f n : ℕ) → n ≤ f → is_plain (decimal n) ≡ true
unfolding is_plain
is_plain-decimal zero n h =
    rw (decimal-small n (omega arith)) (is_plain-digit [] n refl (omega arith))
is_plain-decimal (suc f) n h = elim (Bool-cases (ltb n 10)) [
  | inl e ↦ rw (decimal-small n (ground arith)) (is_plain-digit [] n refl (ground arith))
  | inr e ↦
      let big : 10 ≤ n = ground arith in
      rw (decimal-step n big) (
        is_plain-digit (decimal (n / 10)) (n % 10) (is_plain-decimal f (n / 10) (omega arith))
          (omega arith))
]

is_plain-number_text : (n : ℕ) → is_plain (number_text n) ≡ true
unfolding number_text is_plain
is_plain-number_text n = elim (Bool-cases (ltb 0 (length (decimal n)))) [
  | inl e ↦ elim (Bool-cases (ltb (length (decimal n)) 32)) [
    | inl f ↦ rw (number_text, e, f) (is_plain-decimal n n (omega arith))
    | inr f ↦ rw (number_text, e, f) refl
  ]
  | inr e ↦ rw (number_text, e) refl
]

is_plain-time_stamp : (now : Option (ℕ × ℕ)) → is_plain (time_stamp now) ≡ true
unfolding time_stamp is_plain
is_plain-time_stamp none = refl
is_plain-time_stamp (some (sec, usec)) = is_plain-number_text _

is_plain-address_text : (address : ℕ) → is_plain (address_text address) ≡ true
unfolding address_text is_plain
is_plain-address_text address = elim (Bool-cases (address == 4294967295)) [
  | inl e ↦ rw (address_text, e) refl
  | inr e ↦ rw (address_text, e) (is_plain-number_text address)
]

tail_text :
    (common address imei apn : Text)
    → (((common ++ (tab ∷ address)) ++ (tab ∷ imei)) ++ (tab ∷ apn)) ++ (newline ∷ [])
      ≡ common ++ (tab ∷ (address ++ (tab ∷ (imei ++ (tab ∷ (apn ++ (newline ∷ [])))))))
tail_text common address imei apn = simp append_assoc

-- A line of fields, each with a tab behind it but for the last one.
module _ (s : SessionInfo) (now : Option (ℕ × ℕ)) (v : IsPlain s) where
  abbrev imsi : Text
  imsi = otl_text s.subscription_data.end_user_imsi

  common_text :
      (c : ℕ) (rest : Text)
      → common_part (c ∷ (tab ∷ [])) s now ++ rest
        ≡ c ∷ (tab ∷ (s.session_id ++ (tab ∷ (time_stamp now ++ (tab ∷ (imsi ++ rest))))))
  unfolding common_part
  common_text c rest = simp append_assoc

  read_fields-common :
      (c : ℕ) (rest : Text)
      → is_plain (c ∷ []) ≡ true
      → read_fields (common_part (c ∷ (tab ∷ [])) s now ++ rest) ≡ (
        c ∷ [],
        s.session_id
            ∷ (time_stamp now ∷ ((read_fields (imsi ++ rest)).0 ∷ (read_fields (imsi ++ rest)).1)),
      )
  read_fields-common c rest h =
      let ends = time_stamp now ++ (tab ∷ (imsi ++ rest)) in
      rw
        (
          common_text c rest,
          read_fields-tab (c ∷ []) (s.session_id ++ (tab ∷ ends)) h,
          read_fields-tab s.session_id ends v.id_plain,
          read_fields-tab (time_stamp now) (imsi ++ rest) (is_plain-time_stamp now),
        )
        refl

  abbrev last_three : ℕ → Text
  last_three address =
      address_text address
      ++ (tab ∷ (otl_text s.imei ++ (tab ∷ (otl_text s.called_station_id ++ (newline ∷ [])))))

  read_fields-last :
      (address : ℕ)
      → read_fields (imsi ++ (tab ∷ last_three address))
        ≡ (imsi, address_text address ∷ (otl_text s.imei ∷ (otl_text s.called_station_id ∷ [])))
  read_fields-last address =
      let apn = otl_text s.called_station_id ++ (newline ∷ []) in
      rw
        (
          read_fields-tab imsi (last_three address) v.imsi_plain,
          read_fields-tab (address_text address) (otl_text s.imei ++ (tab ∷ apn))
              (is_plain-address_text address),
          read_fields-tab (otl_text s.imei) apn v.imei_plain,
          read_fields-newline (otl_text s.called_station_id) v.apn_plain,
        )
        refl

  -- The fields of a record are those of the session, if no text of it has a tab or a newline.
  pub read_fields-make_record :
      (request_type address : ℕ)
      → read_fields (make_record request_type s address now) ≡ fields_of request_type s address now
  unfolding make_record fields_of
  read_fields-make_record request_type address =
      elim (Bool-cases (request_type == initial_request)) [
        | inl e ↦
            rw (make_record, fields_of, e)
              (ap read_fields (
                  tail_text (common_part (b'1' ∷ (tab ∷ [])) s now) (address_text address)
                    (otl_text s.imei) (otl_text s.called_station_id))
                ∙ read_fields-common b'1' (tab ∷ last_three address) (unfold is_plain in refl)
                ∙ ap
                    (λ (r : Text × List Text).
                      (b'1' ∷ [], s.session_id ∷ (time_stamp now ∷ (r.0 ∷ r.1))))
                    (read_fields-last address))
        | inr e ↦ elim (Bool-cases (request_type == termination_request)) [
          | inl f ↦
              rw (make_record, fields_of, e, f)
                (read_fields-common b'3' (newline ∷ []) (unfold is_plain in refl)
                  ∙ ap
                      (λ (r : Text × List Text).
                        (b'3' ∷ [], s.session_id ∷ (time_stamp now ∷ (r.0 ∷ r.1))))
                      (read_fields-newline imsi v.imsi_plain))
          | inr f ↦ rw (make_record, fields_of, e, f) (unfold read_fields in refl)
        ]
      ]
