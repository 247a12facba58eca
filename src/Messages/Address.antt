-- ===== src/Messages/Address.antt =====
-- Values as text: pcrf_ip_addr_to_string and pcrf_extract_avp_enum_val of src/pcrf_avp_oper.cpp.
pub mod Bounds
use pcrf.Common.{
  ℕ, zero, suc, ◌+◌, ◌-◌, ◌/◌, ◌%◌, ◌⊎◌, inl, inr, Option, none, some, List, [], ◌∷◌, ◌++◌, ◌==◌,
  ltb, if◌then◌else◌,
}
use pcrf.Common.Text.{Text, bytes}
use pcrf.Common.Lists.{length, take}
use pcrf.Common.Decimal.{decimal}
use pcrf.Common.Int.{ℤ, pos, negsuc}
use pcrf.Types.{OtlText, to_otl}
use pcrf.Messages.{Header, Value, number_of}

-- "%u.%u.%u.%u".
unfoldable pub dotted : ℕ → ℕ → ℕ → ℕ → Text
dotted a b c d = decimal a ++ (b'.' ∷ (decimal b ++ (b'.' ∷ (decimal c ++ (b'.' ∷ decimal d)))))

-- pcrf_ip_addr_to_string of the bytes: the text is stored where it fits into mcAddr[ 16 ].
unfoldable pub ip_addr_to_string : Text → OtlText → OtlText
unfolding dotted
ip_addr_to_string (a ∷ (b ∷ (c ∷ (d ∷ [])))) out =
    let t = dotted a b c d in if ltb (length t) 16 then to_otl t else out
ip_addr_to_string _ out = out

-- Hexadecimal digits, as %x prints them.
unfoldable pub hex_digit : ℕ → ℕ
hex_digit n = if ltb n 10 then 48 + n else 87 + n

unfoldable pub hex_digits : ℕ → ℕ → Text
unfolding hex_digit
hex_digits zero n = hex_digit (n % 16) ∷ []
hex_digits (suc rounds) n =
    let rest = hex_digits rounds (n / 16) in
    if ltb n 16 then hex_digit n ∷ [] else rest ++ hex_digit (n % 16) ∷ []

unfoldable pub zeros : ℕ → Text
zeros zero = []
zeros (suc n) = b'0' ∷ zeros n

-- "%#0<width>x" of a number of 64 bits at most: 0 has no prefix.
unfoldable pub hex_text : ℕ → ℕ → Text
unfolding zeros hex_digits
hex_text width n =
    let digits = hex_digits 16 n in
    if n == 0 then zeros width else bytes "0x" ++ (zeros (width - 2 - length digits) ++ digits)

-- avp_basetype.
pub data BaseType : Type 0 where
  integer32 : BaseType
  integer64 : BaseType
  unsigned32 : BaseType
  unsigned64 : BaseType
  float32 : BaseType
  float64 : BaseType
  other_type : BaseType

-- What the dictionary knows: the type of an AVP or the error of the search, the name of a value,
-- and "%f" of a number.
pub record EnumDictionary : Type 0 where
  pub base_type : Header → ℕ ⊎ BaseType
  pub enum_name : Header → Value → Option Text
  pub float_text : Value → Text

-- The text of a value without a name.
unfoldable pub number_text : EnumDictionary → BaseType → Value → Text
unfolding hex_text number_of
number_text lib integer32 x = hex_text 8 (number_of x)
number_text lib unsigned32 x = hex_text 8 (number_of x)
number_text lib integer64 x = hex_text 16 (number_of x)
number_text lib unsigned64 x = hex_text 16 (number_of x)
number_text lib float32 x = lib.float_text x
number_text lib float64 x = lib.float_text x
number_text lib other_type x = []

-- strncpy and snprintf into a buffer of `size` bytes, the last one being 0.
unfoldable pub in_buffer : ℕ → Text → Text
in_buffer size t = take (size - 1) t

-- The name of a value, or else the number, in the buffer.
unfoldable pub value_text : EnumDictionary → ℕ → Header → Value → BaseType → Text
unfolding number_text in_buffer
value_text lib size h x type =
    in_buffer size (elim (lib.enum_name h x) [ some name ↦ name | none ↦ number_text lib type x ])

unfoldable pub enum_val_of : EnumDictionary → ℕ → Header → Value → ℕ ⊎ BaseType → ℤ ⊎ Text
unfolding value_text
enum_val_of lib size h x (inl code) = inl (pos code)
enum_val_of lib size h x (inr other_type) = inl (negsuc 3332)
enum_val_of lib size h x (inr type) = inr (value_text lib size h x type)

-- pcrf_extract_avp_enum_val: the text where 0 is returned, or else the code.
unfoldable pub extract_avp_enum_val : EnumDictionary → ℕ → Header → Value → ℤ ⊎ Text
unfolding enum_val_of
extract_avp_enum_val lib size h x = enum_val_of lib size h x (lib.base_type h)
