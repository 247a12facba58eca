-- ===== src/Uli.antt =====
-- 3GPP-User-Location-Info and the RAI of a request: src/pcrf_ULI.cpp.
pub mod Fields
pub mod Memory
pub mod Names
pub mod Sectors
use pcrf.Common.{
  ℕ, zero, suc, ◌+◌, ◌-◌, ◌*◌, ◌/◌, ◌%◌, Bool, true, false, Option, none, some, List, [], ◌∷◌, ◌++◌,
  ltb, leb, ◌==◌, if◌then◌else◌,
}
use pcrf.Common.Text.{Text, bytes}
use pcrf.Common.Lists.{length, take, drop}
use pcrf.Common.Int.{ℤ, pos, negsuc}
use pcrf.Common.Decimal.{decimal}
use pcrf.Types.{UserLocation, OtlText, to_otl, einval}
use pcrf.Uli.Fields.{
  Mccmnc, Cgi, Sai, Rai, Tai, Ecgi, mccmnc_of, cgi_of, sai_of, rai_of, tai_of, ecgi_of, mccmnc_text,
}

-- EUserLocationType.
abbrev pub type_cgi : ℕ
type_cgi = 0

abbrev type_sai : ℕ
type_sai = 1

abbrev type_rai : ℕ
type_rai = 2

abbrev type_tai : ℕ
type_tai = 128

abbrev type_ecgi : ℕ
type_ecgi = 129

abbrev type_tai_ecgi : ℕ
type_tai_ecgi = 130

-- sizeof of the structure for a type; `none` for the values that the switch does not know.
unfoldable pub size_of : ℕ → Option ℕ
size_of t =
    if t == type_cgi
    then some 7
    else if t == type_sai
    then some 7
    else if t == type_rai
    then some 7
    else if t == type_tai
    then some 5
    else if t == type_ecgi
    then some 7
    else if t == type_tai_ecgi
    then some 12
    else none

-- snprintf into mcValue[ 128 ]: what the array holds.
unfoldable pub mc_value : Text → Text
mc_value t = if ltb (length t) 128 then t else take 127 t

-- mcValue[ iFnRes - 1 ], the last byte.
unfoldable pub last_byte : Text → Text
last_byte [] = []
last_byte (c ∷ []) = c ∷ []
last_byte (c ∷ (d ∷ s)) = last_byte (d ∷ s)

-- p_coValue.v[ p_coValue.v.length() - 1 ] = '-'.
unfoldable pub dash_last : Text → Text
dash_last [] = []
dash_last (c ∷ []) = b'-' ∷ []
dash_last (c ∷ (d ∷ s)) = c ∷ dash_last (d ∷ s)

-- format_CGI: p_coValue.v behind the first snprintf, whose text is `t`.
unfoldable pub cgi_value : Text → Text → Text
unfolding mc_value last_byte dash_last
cgi_value mccmnc t =
    let whole = mccmnc ++ (b'-' ∷ mc_value t) in
    let sector = if ltb (length t) 128 then last_byte t else [] in
    if ltb 0 (length sector) then dash_last whole ++ sector else whole

unfoldable pub format_cgi : Cgi → Text → OtlText
unfolding cgi_value
format_cgi c mccmnc =
    to_otl
      (cgi_value mccmnc (decimal (c.lac1 * 256 + c.lac2) ++ (b'-' ∷ decimal (c.ci1 * 256 + c.ci2))))

unfoldable format_sai : Sai → Text → OtlText
unfolding mc_value
format_sai s mccmnc = to_otl (
    mccmnc
    ++ (b'-'
        ∷ mc_value (decimal (s.lac1 * 256 + s.lac2) ++ (b'-' ∷ decimal (s.sas1 * 256 + s.sas2)))))

unfoldable format_rai : Rai → Text → OtlText
unfolding mc_value
format_rai r mccmnc =
    to_otl (mccmnc ++ (b'-' ∷ mc_value (decimal (r.lac1 * 256 + r.lac2) ++ (b'-' ∷ decimal r.rac))))

unfoldable format_tai : Tai → Text → OtlText
unfolding mc_value
format_tai t mccmnc = to_otl (mccmnc ++ (b'-' ∷ mc_value (decimal (t.tac1 * 256 + t.tac2))))

unfoldable format_ecgi : Ecgi → Text → OtlText
unfolding mc_value
format_ecgi e mccmnc = to_otl (
    mccmnc
    ++ (b'-'
        ∷ mc_value (decimal (e.eci1 * 65536 + e.eci2 * 256 + e.eci3) ++ (b'-' ∷ decimal e.eci4))))

-- memcpy of `from` to a structure of `size` bytes, which holds `junk` before; `none` is a write
-- behind its end.
unfoldable pub memcpy : ℕ → Text → Text → Option Text
memcpy size junk from =
    if leb (length from) size then some (from ++ drop (length from) (take size junk)) else none

-- The second switch, with the structure of the type.
unfoldable pub fill_user_location : ℕ → Text → UserLocation → UserLocation
unfolding format_cgi format_rai format_tai format_ecgi
fill_user_location t m l =
    let name = mccmnc_text (mccmnc_of m) in
    if t == type_cgi
    then record l { cgi = format_cgi (cgi_of m) name }
    else if t == type_rai
    then record l { rai = format_rai (rai_of m) name }
    else if t == type_tai
    then record l { tai = format_tai (tai_of m) name }
    else if t == type_ecgi
    then record l { ecgi = format_ecgi (ecgi_of m) name }
    else if t == type_tai_ecgi
    then record l { tai = format_tai (tai_of m) name; ecgi = format_ecgi (ecgi_of (drop 5 m)) name }
    else l

-- What pcrf_parse_user_location comes to: an access out of bounds, or the return value, the
-- location and *p_pbLoaded.
pub data Parsed : Type 0 where
  out_of_bounds : Parsed
  returned : ℤ → UserLocation → Bool → Parsed

-- pcrf_parse_user_location of the bytes of the AVP; `junk` is what the structures hold before.
unfoldable pub parse_user_location : Text → Text → UserLocation → Bool → Parsed
unfolding size_of memcpy fill_user_location
parse_user_location junk [] l loaded = out_of_bounds
parse_user_location junk (t ∷ rest) l loaded = elim (size_of t) [
  | none ↦ returned (negsuc 1) l loaded
  | some size ↦
      if leb size (suc (length rest))
      then elim (memcpy size junk rest) [
        | none ↦ out_of_bounds
        | some m ↦ returned (pos 0) (fill_user_location t m l) true
      ]
      else returned (negsuc 0) l loaded
]

-- pcrf_parse_RAI: the code and the value. Five characters, the LAC and the RAC of the AVP.
unfoldable pub parse_rai : Text → OtlText → ℕ × OtlText
unfolding format_rai
parse_rai (a ∷ (b ∷ (c ∷ (d ∷ (e ∷ (l1 ∷ (l2 ∷ (r ∷ (_ ∷ _))))))))) value = (
  0,
  format_rai (record { lac1 = l1; lac2 = l2; rac = r }) (a ∷ (b ∷ (c ∷ (b'-' ∷ (d ∷ (e ∷ [])))))),
)
parse_rai _ value = (einval, value)
