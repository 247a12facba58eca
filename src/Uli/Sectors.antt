-- ===== src/Uli/Sectors.antt =====
-- From 3GPP-User-Location-Info to the location rule: pcrf_parse_user_location of src/pcrf_ULI.cpp
-- and pcrf_procera_make_uli_rule of src/procera/pcrf_procera.cpp.
use mathlib.Core.List.{append_assoc}
use pcrf.Common.{
  ℕ, zero, suc, ◌+◌, ◌/◌, ◌%◌, ◌≤◌, ◌<◌, ◌≡◌, refl, sym, ap, ◌∙◌, none, Bool, true, [], ◌∷◌, ◌++◌,
  ltb, if◌then◌else◌, arith, Bool-cases, inl, inr,
}
use pcrf.Common.Text.{Text, bytes}
use pcrf.Common.Lists.{length, length-append}
use pcrf.Common.Int.{pos}
use pcrf.Common.Decimal.{decimal, decimal-small, decimal-step}
use pcrf.Types.{UserLocation, AbonRule, OtlText, to_otl, einval}
use pcrf.Procera.{find_last_dash, make_uli_rule, set_flags}
use pcrf.Procera.Location.{location, make_uli_rule-location, make_uli_rule-no_base}
use pcrf.Uli.{returned, parse_user_location, format_cgi, fill_user_location, type_cgi, size_of}
use pcrf.Uli.Fields.{cgi_of, mccmnc_of, mccmnc_text}
use pcrf.Uli.Memory.{parse_user_location-exact}
use pcrf.Uli.Names.{lac_of, ci_of, base_of, format_cgi_lem}

find_last_dash-end :
    (x : Text) (d : ℕ) → find_last_dash x ≡ none → 48 ≤ d → find_last_dash (x ++ (d ∷ [])) ≡ none
unfolding find_last_dash
find_last_dash-end [] d h n = ground arith
find_last_dash-end (a ∷ x) d h n = ground (arith, find_last_dash-end x d)

find_last_dash-digits : (f n : ℕ) → n ≤ f → find_last_dash (decimal n) ≡ none
find_last_dash-digits zero n h =
    rw (decimal-small n (omega arith))
      (find_last_dash-end [] (48 + n) (unfold find_last_dash in refl) (omega arith))
find_last_dash-digits (suc f) n h = elim (Bool-cases (ltb n 10)) [
  | inl e ↦
      rw (decimal-small n (ground arith))
        (find_last_dash-end [] (48 + n) (unfold find_last_dash in refl) (omega arith))
  | inr e ↦
      let big : 10 ≤ n = ground arith in
      rw (decimal-step n big) (
        find_last_dash-end (decimal (n / 10)) (48 + n % 10)
          (find_last_dash-digits f (n / 10) (omega arith)) (omega arith))
]

length-digits : (n : ℕ) → 1 ≤ length (decimal n)
length-digits n = elim (Bool-cases (ltb n 10)) [
  | inl e ↦ rw (decimal-small n (ground arith)) (omega arith)
  | inr e ↦
      rw (decimal-step n (ground arith))
        (omega (arith, length-append (decimal (n / 10)) ((48 + n % 10) ∷ [])))
]

-- The location of a CGI in the structure `m`.
abbrev pub cgi_text : Text → OtlText
cgi_text m = format_cgi (cgi_of m) (mccmnc_text (mccmnc_of m))

-- The text of a CGI as a location between dashes.
cgi_text-location :
    (m : Text)
    → lac_of (cgi_of m) < 65536
    → ci_of (cgi_of m) < 65536
    → cgi_text m
      ≡ to_otl (
          location
            (mccmnc_text (mccmnc_of m) ++ (b'-' ∷ decimal (lac_of (cgi_of m))))
            (base_of (ci_of (cgi_of m)))
            ((48 + ci_of (cgi_of m) % 10) ∷ []))
cgi_text-location m h k =
    let name = mccmnc_text (mccmnc_of m) in
    let area = decimal (lac_of (cgi_of m)) in
    let base = base_of (ci_of (cgi_of m)) in
    let sector = (48 + ci_of (cgi_of m) % 10) ∷ [] in
    format_cgi_lem (cgi_of m) name h k
    ∙ ap to_otl (
        sym (
          append_assoc (name ++ (b'-' ∷ area)) (b'-' ∷ base) (b'-' ∷ sector)
          ∙ append_assoc name (b'-' ∷ area) ((b'-' ∷ base) ++ (b'-' ∷ sector))))

-- For a CGI of exactly seven bytes behind the type, with an area and a cell of 16 bits:
-- pcrf_parse_user_location returns 0 and stores a text, of which pcrf_procera_make_uli_rule makes
-- the rule "/User-Location/<cell without its last digit>/<last digit>". A cell of one digit makes
-- it return EINVAL instead.
pub make_uli_rule-parse_user_location :
    (junk m : Text) (l : UserLocation) (loaded : Bool) (r : AbonRule)
    → length m ≡ 7
    → lac_of (cgi_of m) < 65536
    → ci_of (cgi_of m) < 65536
    → (parse_user_location junk (type_cgi ∷ m) l loaded
        ≡ returned (pos 0) (record l { cgi = cgi_text m }) true)
      × (make_uli_rule (cgi_text m) r ≡ (
          if ltb (ci_of (cgi_of m)) 10
          then (einval, record r { rule_name = bytes "/User-Location/" })
          else (
            0,
            set_flags (record r {
              rule_name =
                  bytes "/User-Location/"
                  ++ (decimal (ci_of (cgi_of m) / 10)
                      ++ (bytes "/" ++ ((48 + ci_of (cgi_of m) % 10) ∷ [])));
            }),
          )))
make_uli_rule-parse_user_location junk m l loaded r len h k =
    let ci = ci_of (cgi_of m) in
    let digit =
      find_last_dash-end [] (48 + ci % 10) (unfold find_last_dash in refl) (omega arith) in
    let parsed =
      parse_user_location-exact junk m type_cgi 7 l loaded (unfold size_of in refl) len in
    (
      unfold fill_user_location in parsed,
      ap (λ t. make_uli_rule t r) (cgi_text-location m h k) ∙ elim (Bool-cases (ltb ci 10)) [
        | inl e ↦ rw e (make_uli_rule-no_base _ ((48 + ci % 10) ∷ []) r digit)
        | inr e ↦ rw e (
            make_uli_rule-location _ (decimal (ci / 10)) ((48 + ci % 10) ∷ []) r
              (find_last_dash-digits (ci / 10) (ci / 10) (omega arith)) digit
              (length-digits (ci / 10)))
      ],
    )
