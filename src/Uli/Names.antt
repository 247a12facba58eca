-- ===== src/Uli/Names.antt =====
-- What the text of a CGI that src/pcrf_ULI.cpp prints tells of the location.
use mathlib.Core.List.{append_assoc}
use pcrf.Common.{
  ℕ, ◌+◌, ◌-◌, ◌*◌, ◌/◌, ◌%◌, ◌<◌, ◌≡◌, refl, sym, ap, ◌∙◌, Option, none, some, true, [], ◌∷◌, ◌++◌,
  ltb, if◌then◌else◌, arith, Bool-cases, inl, inr,
}
use pcrf.Common.Text.{Text}
use pcrf.Common.Lists.{length, length-append}
use pcrf.Common.Decimal.{
  decimal, decimal-small, decimal-step, read_digits, read_digits-one, read_digits-decimal,
  length-decimal,
}
use pcrf.Types.{to_otl}
use pcrf.Uli.{mc_value, last_byte, dash_last, cgi_value, format_cgi}
use pcrf.Uli.Fields.{Mccmnc, Cgi, mccmnc_text}

last_byte-end : (x : Text) (d : ℕ) → last_byte (x ++ (d ∷ [])) ≡ d ∷ []
unfolding last_byte
last_byte-end [] d = refl
last_byte-end (a ∷ []) d = refl
last_byte-end (a ∷ (b ∷ x)) d = last_byte-end (b ∷ x) d

dash_last-end : (x : Text) (d : ℕ) → dash_last (x ++ (d ∷ [])) ≡ x ++ (b'-' ∷ [])
unfolding dash_last
dash_last-end [] d = refl
dash_last-end (a ∷ []) d = refl
dash_last-end (a ∷ (b ∷ x)) d = ap (λ y. a ∷ y) (dash_last-end (b ∷ x) d)

-- A text of less than 128 bytes fits the array.
mc_value-fits : (t : Text) → length t < 128 → mc_value t ≡ t
unfolding mc_value
mc_value-fits t h = let fits : ltb (length t) 128 ≡ true = ground arith in rw (mc_value, fits) refl

dash_before :
    (name t : Text) (d : ℕ)
    → dash_last (name ++ (b'-' ∷ (t ++ (d ∷ [])))) ≡ name ++ (b'-' ∷ (t ++ (b'-' ∷ [])))
dash_before name t d =
    ap dash_last (sym (append_assoc name (b'-' ∷ t) (d ∷ [])))
    ∙ dash_last-end (name ++ (b'-' ∷ t)) d
    ∙ append_assoc name (b'-' ∷ t) (b'-' ∷ [])

-- The cell without its last digit, which is the sector.
abbrev pub base_of : ℕ → Text
base_of ci = if ltb ci 10 then [] else decimal (ci / 10)

decimal-base_of : (ci : ℕ) → decimal ci ≡ base_of ci ++ ((48 + ci % 10) ∷ [])
decimal-base_of ci = elim (Bool-cases (ltb ci 10)) [
  | inl e ↦ let same : ci % 10 ≡ ci = ground arith in rw (e, same) (decimal-small ci (ground arith))
  | inr e ↦ rw e (decimal-step ci (ground arith))
]

cgi_value-end :
    (name t : Text) (d : ℕ)
    → length (t ++ (d ∷ [])) < 128
    → cgi_value name (t ++ (d ∷ [])) ≡ name ++ (b'-' ∷ (t ++ (b'-' ∷ (d ∷ []))))
unfolding cgi_value
cgi_value-end name t d h =
    let fits : ltb (length (t ++ (d ∷ []))) 128 ≡ true = ground arith in
    rw (cgi_value, mc_value-fits (t ++ (d ∷ [])) h, fits, last_byte-end t d, dash_before name t d)
      (append_assoc name (b'-' ∷ (t ++ (b'-' ∷ []))) (d ∷ [])
        ∙ ap (λ x. name ++ (b'-' ∷ x)) (append_assoc t (b'-' ∷ []) (d ∷ [])))

-- The numbers of a CGI.
abbrev pub lac_of : Cgi → ℕ
lac_of c = c.lac1 * 256 + c.lac2

abbrev pub ci_of : Cgi → ℕ
ci_of c = c.ci1 * 256 + c.ci2

-- The text of a CGI: the network, the area, the cell without its last digit, and that digit.
pub format_cgi_lem :
    (c : Cgi) (name : Text)
    → lac_of c < 65536
    → ci_of c < 65536
    → format_cgi c name
      ≡ to_otl (
          name
          ++ (b'-'
              ∷ (decimal (lac_of c)
                  ++ (b'-' ∷ (base_of (ci_of c) ++ (b'-' ∷ ((48 + ci_of c % 10) ∷ [])))))))
unfolding format_cgi
format_cgi_lem c name h k =
    let split =
      sym
        (append_assoc (decimal (lac_of c)) (b'-' ∷ base_of (ci_of c)) ((48 + ci_of c % 10) ∷ [])) in
    let text = ap (λ x. decimal (lac_of c) ++ (b'-' ∷ x)) (decimal-base_of (ci_of c)) ∙ split in
    let long : length
          ((decimal (lac_of c) ++ (b'-' ∷ base_of (ci_of c))) ++ ((48 + ci_of c % 10) ∷ []))
        < 128 =
      omega (
        arith,
        ap length text,
        length-append (decimal (lac_of c)) (b'-' ∷ decimal (ci_of c)),
        length-decimal (lac_of c) (omega arith),
        length-decimal (ci_of c) (omega arith),
      ) in
    ap to_otl (
      ap (cgi_value name) text
      ∙ cgi_value-end name (decimal (lac_of c) ++ (b'-' ∷ base_of (ci_of c))) (48 + ci_of c % 10)
          long
      ∙ ap (λ x. name ++ (b'-' ∷ x))
          (append_assoc (decimal (lac_of c)) (b'-' ∷ base_of (ci_of c)) _))

-- The digits that are printed of the codes of country and network.
pub record IsPrintable (n : Mccmnc) : Type 0 where
  pub country1 : n.mcc1 < 10
  pub country2 : n.mcc2 < 10
  pub country3 : n.mcc3 < 10
  pub network1 : n.mnc1 < 10
  pub network2 : n.mnc2 < 10

mccmnc_text_lem :
    (n : Mccmnc)
    → IsPrintable n
    → mccmnc_text n
      ≡ (48 + n.mcc1)
        ∷ ((48 + n.mcc2) ∷ ((48 + n.mcc3) ∷ (b'-' ∷ ((48 + n.mnc1) ∷ ((48 + n.mnc2) ∷ [])))))
unfolding mccmnc_text
mccmnc_text_lem n v =
    rw
      (
        mccmnc_text,
        decimal-small n.mcc1 v.country1,
        decimal-small n.mcc2 v.country2,
        decimal-small n.mcc3 v.country3,
        decimal-small n.mnc1 v.network1,
        decimal-small n.mnc2 v.network2,
      )
      refl

-- The text of a location read again: three digits of the country, two of the network, the area,
-- and the cell without its last digit and that digit.
pub record Read : Type 0 where
  pub country : ℕ × ℕ × ℕ
  pub network : ℕ × ℕ
  pub area : ℕ
  pub cell : ℕ

abbrev read_cell : ℕ × Text → ℕ
read_cell (base, s) = elim s [ [] ↦ base | _ ∷ s' ↦ (read_digits base s').0 ]

abbrev read_rest : ℕ × ℕ × ℕ → ℕ × ℕ → ℕ × Text → Option Read
read_rest country network (lac, s) = elim s [
  | [] ↦ none
  | _ ∷ s' ↦ some (record {
    country = country;
    network = network;
    area = lac;
    cell = read_cell (read_digits 0 s');
  })
]

unfoldable read_location : Text → Option Read
unfolding read_digits
read_location (a ∷ (b ∷ (c ∷ (_ ∷ (d ∷ (e ∷ (_ ∷ s))))))) =
    read_rest (a - 48, b - 48, c - 48) (d - 48, e - 48) (read_digits 0 s)
read_location _ = none

read_digits-base_of :
    (ci : ℕ) (s : Text) → read_digits 0 (base_of ci ++ s) ≡ read_digits (ci / 10) s
read_digits-base_of ci s = elim (Bool-cases (ltb ci 10)) [
  | inl e ↦ let z : ci / 10 ≡ 0 = ground arith in rw (e, z) refl
  | inr e ↦ rw e (read_digits-decimal (ci / 10) s)
]

read_digits-dash : (n : ℕ) (s : Text) → read_digits n (b'-' ∷ s) ≡ (n, b'-' ∷ s)
unfolding read_digits
read_digits-dash n s = refl

digit_back : (d : ℕ) → 48 + d - 48 ≡ d
digit_back d = omega arith

read_cell_lem :
    (ci : ℕ) → read_cell (read_digits 0 (base_of ci ++ (b'-' ∷ ((48 + ci % 10) ∷ [])))) ≡ ci
unfolding read_digits
read_cell_lem ci =
    let whole : ci / 10 * 10 + ci % 10 ≡ ci = omega arith in
    ap read_cell
      (read_digits-base_of ci (b'-' ∷ ((48 + ci % 10) ∷ [])) ∙ read_digits-dash (ci / 10) _)
    ∙ ap (λ r. r.0) (read_digits-one (ci / 10) (ci % 10) [] (omega arith))
    ∙ whole

-- The text that is stored for a CGI of two decimal codes gives the country, the first two digits
-- of the network, the location area and the cell back.
read_location-format_cgi :
    (c : Cgi) (n : Mccmnc)
    → IsPrintable n
    → lac_of c < 65536
    → ci_of c < 65536
    → read_location (format_cgi c (mccmnc_text n)).v
      ≡ some (record {
        country = (n.mcc1, n.mcc2, n.mcc3);
        network = (n.mnc1, n.mnc2);
        area = lac_of c;
        cell = ci_of c;
      })
unfolding read_location
read_location-format_cgi c n v h k =
    let end_of_text = b'-' ∷ ((48 + ci_of c % 10) ∷ []) in
    rw
      (
        format_cgi_lem c (mccmnc_text n) h k,
        mccmnc_text_lem n v,
        digit_back n.mcc1,
        digit_back n.mcc2,
        digit_back n.mcc3,
        digit_back n.mnc1,
        digit_back n.mnc2,
        read_digits-decimal (lac_of c) (b'-' ∷ (base_of (ci_of c) ++ end_of_text)),
        read_cell_lem (ci_of c),
      )
      refl
