-- ===== src/SqlQueue/Number.antt =====
-- The number at the end of a session id, as pcrf_sql_queue_enqueue of src/pcrf_sql_queue.cpp takes
-- it: rfind, substr and strtol of the C++ and C libraries, and the remainder of a signed number.
use pcrf.Common.{
  ℕ, suc, ◌+◌, ◌-◌, ◌*◌, ◌%◌, ◌≡◌, refl, Bool, ◌&&◌, ◌||◌, Option, none, some, [], ◌∷◌, leb, ltb,
  ◌==◌, if◌then◌else◌,
}
use pcrf.Common.Text.{Text, bytes}
use pcrf.Common.Int.{ℤ, pos, negsuc}

-- substr from behind the last occurrence of a byte; `none` is npos.
unfoldable after_last : ℕ → Text → Option Text
after_last c [] = none
after_last c (x ∷ xs) = elim (after_last c xs) [
  | some t ↦ some t
  | none ↦ if x == c then some xs else none
]

unfoldable is_space : ℕ → Bool
is_space c = c == 32 || (leb 9 c && leb c 13)

unfoldable skip_space : Text → Text
unfolding is_space
skip_space [] = []
skip_space (c ∷ s) = let rest = skip_space s in if is_space c then rest else c ∷ s

-- The decimal digits from the beginning on.
unfoldable digits_from : ℕ → Text → ℕ
digits_from n [] = n
digits_from n (c ∷ s) =
    let rest = digits_from (n * 10 + (c - 48)) s in if leb 48 c && leb c 57 then rest else n

-- LONG_MAX and LONG_MIN of 64 bits bound the result of strtol.
unfoldable clamp_pos : ℕ → ℤ
clamp_pos n = if ltb 9223372036854775807 n then pos 9223372036854775807 else pos n

unfoldable clamp_neg : ℕ → ℤ
clamp_neg n =
    if n == 0
    then pos 0
    else if ltb 9223372036854775808 n
    then negsuc 9223372036854775807
    else negsuc (n - 1)

-- strtol( ..., NULL, 10 ) of a text without a zero byte.
unfoldable strtol_signed : Text → ℤ
unfolding digits_from clamp_pos clamp_neg
strtol_signed [] = pos 0
strtol_signed (c ∷ s) =
    if c == b'-'
    then clamp_neg (digits_from 0 s)
    else if c == b'+'
    then clamp_pos (digits_from 0 s)
    else clamp_pos (digits_from 0 (c ∷ s))

unfoldable pub strtol : Text → ℤ
unfolding skip_space strtol_signed
strtol s = strtol_signed (skip_space s)

-- The number behind the last ';' of a session id.
unfoldable pub number_after_last : Text → Option ℤ
unfolding after_last strtol
number_after_last session_id = elim (after_last b';' session_id) [
  | none ↦ none
  | some t ↦ some (strtol t)
]

-- `n % count`, a long that has the sign of `n`, converted to unsigned.
unfoldable pub remainder_u32 : ℤ → ℕ → ℕ
remainder_u32 (pos n) count = n % count
remainder_u32 (negsuc n) count = let r = suc n % count in if r == 0 then 0 else 4294967296 - r

last_number : number_after_last (bytes "pcef;1;2; 42;x") ≡ some (pos 0)
unfolding number_after_last
last_number = refl

negative_number : number_after_last (bytes "pcef;1;-7") ≡ some (negsuc 6)
unfolding number_after_last
negative_number = refl
