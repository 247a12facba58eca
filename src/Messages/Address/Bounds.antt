-- ===== src/Messages/Address/Bounds.antt =====
-- The lengths of the texts of src/pcrf_avp_oper.cpp, and the reading of an address back.
use pcrf.Common.{
  ℕ, zero, suc, ◌-◌, ◌<◌, ◌≤◌, ◌≡◌, refl, ap, ◌∙◌, subst, none, some, true, false, List, [], ◌∷◌,
  ◌++◌, ltb, arith, inl, inr, ◌⊎◌,
}
use mathlib.Core.List.{append-nil}
use pcrf.Common.Text.{Text}
use pcrf.Common.Lists.{length, length-append, take, drop}
use pcrf.Common.Int.{ℤ}
use pcrf.Common.Decimal.{decimal, read_digits, read_digits-decimal, length-decimal_byte}
use pcrf.Types.{OtlText}
use pcrf.Messages.{Header, Value}
use pcrf.Messages.Address.{
  dotted, ip_addr_to_string, BaseType, integer32, integer64, unsigned32, unsigned64, float32,
  float64, other_type, EnumDictionary, number_text, value_text, enum_val_of, extract_avp_enum_val,
  in_buffer,
}

-- A number and what follows the character behind it.
unfoldable read_part : Text → ℕ × Text
read_part t = let (n, rest) = read_digits 0 t in (n, drop 1 rest)

-- The four numbers of a text with points, and what is left of it.
unfoldable read_next : List ℕ × Text → List ℕ × Text
unfolding read_part
read_next (ns, t) = let (n, rest) = read_part t in (ns ++ n ∷ [], rest)

unfoldable pub read_dotted : Text → List ℕ × Text
unfolding read_next
read_dotted t = read_next (read_next (read_next (read_next ([], t))))

read_part-decimal : (n : ℕ) (rest : Text) → read_part (decimal n ++ (b'.' ∷ rest)) ≡ (n, rest)
unfolding read_part read_digits
read_part-decimal n rest = rw (read_part, read_digits-decimal n (b'.' ∷ rest)) refl

read_part-last : (n : ℕ) → read_part (decimal n) ≡ (n, [])
unfolding read_part read_digits
read_part-last n =
    rw
      (
        read_part,
        subst (λ t. read_digits 0 t ≡ read_digits n []) (append-nil (decimal n))
            (read_digits-decimal n []),
      )
      refl

length-dotted : (a b c d : ℕ) → a < 256 → b < 256 → c < 256 → d < 256 → length (dotted a b c d) < 16
unfolding dotted
length-dotted a b c d ha hb hc hd = omega (
  arith,
  length-append {0} (decimal a) (b'.' ∷ (decimal b ++ (b'.' ∷ (decimal c ++ (b'.' ∷ decimal d))))),
  length-append {0} (decimal b) (b'.' ∷ (decimal c ++ (b'.' ∷ decimal d))),
  length-append {0} (decimal c) (b'.' ∷ decimal d),
  length-decimal_byte a ha,
  length-decimal_byte b hb,
  length-decimal_byte c hc,
  length-decimal_byte d hd,
)

read_next-decimal :
    (ns : List ℕ) (n : ℕ) (rest : Text)
    → read_next (ns, decimal n ++ (b'.' ∷ rest)) ≡ (ns ++ n ∷ [], rest)
unfolding read_next
read_next-decimal ns n rest = ap (λ r. (ns ++ r.0 ∷ [], r.1)) (read_part-decimal n rest)

read_dotted-dotted : (a b c d : ℕ) → read_dotted (dotted a b c d) ≡ ((a ∷ (b ∷ (c ∷ (d ∷ [])))), [])
unfolding read_dotted dotted
read_dotted-dotted a b c d =
    let from_d = decimal d in
    let from_c = decimal c ++ (b'.' ∷ from_d) in
    let from_b = decimal b ++ (b'.' ∷ from_c) in
    ap (λ s. read_next (read_next (read_next s))) (read_next-decimal [] a from_b)
    ∙ ap (λ s. read_next (read_next s)) (read_next-decimal (a ∷ []) b from_c)
    ∙ ap read_next (read_next-decimal (a ∷ (b ∷ [])) c from_d)
    ∙ ap (λ r. ((a ∷ (b ∷ (c ∷ []))) ++ r.0 ∷ [], r.1)) (read_part-last d)

-- Four bytes are an address whose text fits into the buffer, and from which they can be read; the
-- text is stored whatever stood there.
pub read_dotted-ip_addr_to_string :
    (a b c d : ℕ) (out : OtlText)
    → a < 256
    → b < 256
    → c < 256
    → d < 256
    → let stored = ip_addr_to_string (a ∷ (b ∷ (c ∷ (d ∷ [])))) out in
      (stored.is_null ≡ false)
      × (length stored.v < 16)
      × (read_dotted stored.v ≡ ((a ∷ (b ∷ (c ∷ (d ∷ [])))), []))
unfolding ip_addr_to_string
read_dotted-ip_addr_to_string a b c d out ha hb hc hd =
    let fits = length-dotted a b c d ha hb hc hd in
    let e : ltb (length (dotted a b c d)) 16 ≡ true = ground (arith, fits) in
    rw (ip_addr_to_string, e) (refl, fits, read_dotted-dotted a b c d)

length-take : (n : ℕ) (xs : Text) → length (take n xs) ≤ n
length-take zero xs = omega arith
length-take (suc n) [] = omega arith
length-take (suc n) (x ∷ xs) = omega (arith, length-take n xs)

value_text-lt :
    (lib : EnumDictionary) (size : ℕ) (h : Header) (x : Value) (type : BaseType) (t : Text)
    → 0 < size
    → ◌≡◌ {A = ℤ ⊎ Text} (inr (value_text lib size h x type)) (inr t)
    → length t < size
unfolding value_text in_buffer
value_text-lt lib size h x type t some_room e = ground (
  arith,
  length-take (size - 1)
      (elim (lib.enum_name h x) [ some name ↦ name | none ↦ number_text lib type x ]),
)

enum_val_of-lt :
    (lib : EnumDictionary) (size : ℕ) (h : Header) (x : Value) (r : ℕ ⊎ BaseType) (t : Text)
    → 0 < size
    → enum_val_of lib size h x r ≡ inr t
    → length t < size
unfolding enum_val_of
enum_val_of-lt lib size h x (inl code) t some_room e = ground arith
enum_val_of-lt lib size h x (inr other_type) t some_room e = ground arith
enum_val_of-lt lib size h x (inr integer32) t some_room e =
    value_text-lt lib size h x integer32 t some_room e
enum_val_of-lt lib size h x (inr integer64) t some_room e =
    value_text-lt lib size h x integer64 t some_room e
enum_val_of-lt lib size h x (inr unsigned32) t some_room e =
    value_text-lt lib size h x unsigned32 t some_room e
enum_val_of-lt lib size h x (inr unsigned64) t some_room e =
    value_text-lt lib size h x unsigned64 t some_room e
enum_val_of-lt lib size h x (inr float32) t some_room e =
    value_text-lt lib size h x float32 t some_room e
enum_val_of-lt lib size h x (inr float64) t some_room e =
    value_text-lt lib size h x float64 t some_room e

-- The text of a value, whether it has a name or not, leaves room for the 0 at the end of a buffer
-- that is not empty.
extract_avp_enum_val-lt :
    (lib : EnumDictionary) (size : ℕ) (h : Header) (x : Value) (t : Text)
    → 0 < size
    → extract_avp_enum_val lib size h x ≡ inr t
    → length t < size
unfolding extract_avp_enum_val
extract_avp_enum_val-lt lib size h x t some_room e =
    enum_val_of-lt lib size h x (lib.base_type h) t some_room e
