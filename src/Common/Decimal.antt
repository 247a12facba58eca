-- ===== src/Common/Decimal.antt =====
-- Unsigned numbers in decimal, as %u prints them.
use Prim.Native.Nat.{ℕ, zero, suc, ◌+◌, ◌-◌, ◌*◌, ◌/◌, ◌%◌, ◌≤◌, ◌<◌}
use mathlib.Core.Path.{◌≡◌, refl, ap, ◌∙◌}
use mathlib.Core.Bool.{true, false, ◌&&◌}
use mathlib.Core.Logic.{inl, inr}
use mathlib.Core.List.{[], ◌∷◌, ◌++◌, append_assoc}
use native.Mathlib.Omega.{arith}
use pcrf.Common.Tests.{ltb, leb, if◌then◌else◌, Bool-cases}
use pcrf.Common.Text.{Text}
use pcrf.Common.Lists.{length, length-append}

-- The last digit, after the digits of the rest; as many rounds as the number itself are enough.
digits_of : ℕ → ℕ → Text
digits_of zero n = (48 + n % 10) ∷ []
digits_of (suc rounds) n =
    let rest = digits_of rounds (n / 10) in
    if ltb n 10 then (48 + n) ∷ [] else rest ++ ((48 + n % 10) ∷ [])

unfoldable pub decimal : ℕ → Text
unfolding digits_of
decimal n = digits_of n n

-- The value of the digits from the beginning on, with `n` read before, and the text after them.
unfoldable pub read_digits : ℕ → Text → ℕ × Text
read_digits n [] = (n, [])
read_digits n (c ∷ s) =
    let rest = read_digits (n * 10 + (c - 48)) s in
    if leb 48 c && leb c 57 then rest else (n, c ∷ s)

digits_of-rounds : (a b n : ℕ) → n ≤ a → n ≤ b → digits_of a n ≡ digits_of b n
unfolding digits_of
digits_of-rounds zero zero n h k = refl
digits_of-rounds zero (suc b) n h k = ground (arith)
digits_of-rounds (suc a) zero n h k = ground (arith)
digits_of-rounds (suc a) (suc b) n h k = elim (Bool-cases (ltb n 10)) [
  | inl e ↦ rw e refl
  | inr e ↦ rw (e, digits_of-rounds a b (n / 10) (ground arith) (ground arith)) refl
]

pub decimal-small : (n : ℕ) → n < 10 → decimal n ≡ (48 + n) ∷ []
unfolding decimal
decimal-small zero h = refl
decimal-small (suc n) h = ground arith

pub decimal-step : (n : ℕ) → 10 ≤ n → decimal n ≡ decimal (n / 10) ++ ((48 + n % 10) ∷ [])
unfolding decimal
decimal-step zero h = absurd (omega arith)
decimal-step (suc n) h =
    let e : ltb (suc n) 10 ≡ false = ground arith in
    rw
      (
        decimal,
        digits_of,
        e,
        digits_of-rounds n (suc n / 10) (suc n / 10) (omega arith) (omega arith),
      )
      refl

pub read_digits-one :
    (m d : ℕ) (rest : Text)
    → d < 10
    → read_digits m ((48 + d) ∷ rest) ≡ read_digits (m * 10 + d) rest
unfolding read_digits
read_digits-one m d rest h =
    let value : 48 + d - 48 ≡ d = omega arith in
    let lo : leb 48 (48 + d) ≡ true = ground arith in
    let hi : leb (48 + d) 57 ≡ true = ground arith in rw (read_digits, lo, hi, value) refl

read_digits-rounds :
    (f n : ℕ) (rest : Text) → n ≤ f → read_digits 0 (decimal n ++ rest) ≡ read_digits n rest
read_digits-rounds zero n rest h =
    let e : n ≡ 0 = omega arith in
    rw (decimal-small n (omega arith)) (rw e (read_digits-one 0 0 rest (omega arith)))
read_digits-rounds (suc f) n rest h = elim (Bool-cases (ltb n 10)) [
  | inl e ↦
      let small : n < 10 = ground arith in
      let same : 0 * 10 + n ≡ n = omega arith in
      rw (decimal-small n small)
        (read_digits-one 0 n rest small ∙ ap (λ k. read_digits k rest) same)
  | inr e ↦
      let big : 10 ≤ n = ground arith in
      let whole : n / 10 * 10 + n % 10 ≡ n = omega arith in
      rw (decimal-step n big, append_assoc (decimal (n / 10)) ((48 + n % 10) ∷ []) rest)
        (read_digits-rounds f (n / 10) ((48 + n % 10) ∷ rest) (omega arith)
          ∙ read_digits-one (n / 10) (n % 10) rest (omega arith)
          ∙ ap (λ k. read_digits k rest) whole)
]

-- Reading what was printed gives the number, and goes on with what follows it.
pub read_digits-decimal :
    (n : ℕ) (rest : Text) → read_digits 0 (decimal n ++ rest) ≡ read_digits n rest
read_digits-decimal n rest = read_digits-rounds n n rest (omega arith)

length-step : (n k : ℕ) → length (decimal (n / 10)) ≤ k → length (decimal n) ≤ suc k
length-step n k h = elim (Bool-cases (ltb n 10)) [
  | inl e ↦ rw (decimal-small n (ground arith)) (omega arith)
  | inr e ↦
      rw (decimal-step n (ground arith))
        (omega (arith, length-append (decimal (n / 10)) ((48 + n % 10) ∷ [])))
]

-- A byte has at most three digits.
pub length-decimal_byte : (n : ℕ) → n < 256 → length (decimal n) ≤ 3
length-decimal_byte n h =
    length-step n 2
      (length-step (n / 10) 1 (rw (decimal-small (n / 10 / 10) (omega arith)) (omega arith)))

-- A number of at most 30 bits has at most ten digits.
pub length-decimal : (n : ℕ) → n < 1073741824 → length (decimal n) ≤ 10
length-decimal n h = length-step n 9 (
    length-step (n / 10) 8 (
      length-step (n / 10 / 10) 7 (
        length-step (n / 10 / 10 / 10) 6 (
          length-step (n / 10 / 10 / 10 / 10) 5 (
            length-step (n / 10 / 10 / 10 / 10 / 10) 4 (
              length-step (n / 10 / 10 / 10 / 10 / 10 / 10) 3 (
                length-step (n / 10 / 10 / 10 / 10 / 10 / 10 / 10) 2 (
                  length-step (n / 10 / 10 / 10 / 10 / 10 / 10 / 10 / 10) 1 (
                    rw
                      (decimal-small (n / 10 / 10 / 10 / 10 / 10 / 10 / 10 / 10 / 10) (omega arith))
                      (omega arith))))))))))
