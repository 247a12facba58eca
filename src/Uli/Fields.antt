-- ===== src/Uli/Fields.antt =====
-- The packed structures of src/pcrf_ULI.cpp, read from memory. A bit field of 4 bits stands in the
-- lower half of its byte first.
use pcrf.Common.{ℕ, zero, suc, ◌/◌, ◌%◌, [], ◌∷◌, ◌++◌}
use pcrf.Common.Text.{Text}
use pcrf.Common.Decimal.{decimal}

-- SMCCMNC.
pub record Mccmnc : Type 0 where
  pub mcc1 : ℕ
  pub mcc2 : ℕ
  pub mcc3 : ℕ
  pub mnc3 : ℕ
  pub mnc1 : ℕ
  pub mnc2 : ℕ

-- SCGI, SSAI, SRAI, STAI and SECGI without their SMCCMNC, with the fields that are read.
pub record Cgi : Type 0 where
  pub lac1 : ℕ
  pub lac2 : ℕ
  pub ci1 : ℕ
  pub ci2 : ℕ

pub record Sai : Type 0 where
  pub lac1 : ℕ
  pub lac2 : ℕ
  pub sas1 : ℕ
  pub sas2 : ℕ

pub record Rai : Type 0 where
  pub lac1 : ℕ
  pub lac2 : ℕ
  pub rac : ℕ

pub record Tai : Type 0 where
  pub tac1 : ℕ
  pub tac2 : ℕ

pub record Ecgi : Type 0 where
  pub eci1 : ℕ
  pub eci2 : ℕ
  pub eci3 : ℕ
  pub eci4 : ℕ

-- The byte at a place.
abbrev byte_at : ℕ → Text → ℕ
byte_at i [] = 0
byte_at zero (b ∷ m) = b
byte_at (suc i) (b ∷ m) = byte_at i m

unfoldable pub mccmnc_of : Text → Mccmnc
mccmnc_of m = record {
  mcc1 = byte_at 0 m % 16;
  mcc2 = byte_at 0 m / 16;
  mcc3 = byte_at 1 m % 16;
  mnc3 = byte_at 1 m / 16;
  mnc1 = byte_at 2 m % 16;
  mnc2 = byte_at 2 m / 16;
}

unfoldable pub cgi_of : Text → Cgi
cgi_of m = record { lac1 = byte_at 3 m; lac2 = byte_at 4 m; ci1 = byte_at 5 m; ci2 = byte_at 6 m }

unfoldable pub sai_of : Text → Sai
sai_of m = record { lac1 = byte_at 3 m; lac2 = byte_at 4 m; sas1 = byte_at 5 m; sas2 = byte_at 6 m }

unfoldable pub rai_of : Text → Rai
rai_of m = record { lac1 = byte_at 3 m; lac2 = byte_at 4 m; rac = byte_at 5 m }

unfoldable pub tai_of : Text → Tai
tai_of m = record { tac1 = byte_at 3 m; tac2 = byte_at 4 m }

unfoldable pub ecgi_of : Text → Ecgi
ecgi_of m = record {
  eci1 = byte_at 3 m % 16;
  eci2 = byte_at 4 m;
  eci3 = byte_at 5 m;
  eci4 = byte_at 6 m;
}

-- "%u%u%u-%u%u": the third digit of the MNC is left out.
unfoldable pub mccmnc_text : Mccmnc → Text
mccmnc_text c =
    decimal c.mcc1
    ++ (decimal c.mcc2 ++ (decimal c.mcc3 ++ (b'-' ∷ (decimal c.mnc1 ++ decimal c.mnc2))))
