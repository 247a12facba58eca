-- ===== src/Uli/Memory.antt =====
-- How pcrf_parse_user_location of src/pcrf_ULI.cpp copies the AVP to a structure.
use mathlib.Core.List.{append-nil}
use pcrf.Common.{
  ℕ, zero, suc, ◌≤◌, ◌<◌, ◌≡◌, ◌↔◌, refl, sym, Bool-cases, inl, inr, Bool, true, none, some, [],
  ◌∷◌, ◌++◌, leb, arith,
}
use pcrf.Common.Text.{Text}
use pcrf.Common.Lists.{length, take, drop}
use pcrf.Common.Int.{pos, negsuc}
use pcrf.Types.{UserLocation}
use pcrf.Uli.{size_of, memcpy, fill_user_location, out_of_bounds, returned, parse_user_location}

drop-take : (n : ℕ) (x : Text) → drop n (take n x) ≡ []
drop-take zero x = refl
drop-take (suc n) [] = refl
drop-take (suc n) (b ∷ x) = drop-take n x

memcpy-exact : (junk from : Text) → memcpy (length from) junk from ≡ some from
unfolding memcpy
memcpy-exact junk from =
    let whole : leb (length from) (length from) ≡ true = ground arith in
    rw (memcpy, whole, drop-take (length from) junk, append-nil from) refl

memcpy-long : (n : ℕ) (junk from : Text) → n < length from → memcpy n junk from ≡ none
unfolding memcpy
memcpy-long n junk from h = ground arith

memcpy-fits :
    (n : ℕ) (junk from : Text)
    → length from ≤ n
    → memcpy n junk from ≡ some (from ++ drop (length from) (take n junk))
unfolding memcpy
memcpy-fits n junk from h = ground arith

module _ (junk rest : Text) (t n : ℕ) (l : UserLocation) (loaded : Bool)
    (known : size_of t ≡ some n) where
  -- For a type whose structure has `n` bytes: the copy of what stands behind the type goes over
  -- the end of the structure exactly where it is longer than the structure, and the function
  -- returns -1, with nothing written, exactly where it is shorter by two bytes or more.
  pub parse_user_location-out_of_bounds :
      ((parse_user_location junk (t ∷ rest) l loaded ≡ out_of_bounds) ↔ (n < length rest))
      × ((parse_user_location junk (t ∷ rest) l loaded ≡ returned (negsuc 0) l loaded)
          ↔ (suc (length rest) < n))
  unfolding parse_user_location
  parse_user_location-out_of_bounds = elim (Bool-cases (leb n (suc (length rest)))) [
    | inl e ↦ elim (Bool-cases (leb (length rest) n)) [
      | inl f ↦
          rw (parse_user_location, known, e, memcpy-fits n junk rest (ground arith))
            ((λ h. cc, λ h. ground arith), (λ h. cc, λ h. ground arith))
      | inr f ↦
          rw (parse_user_location, known, e, memcpy-long n junk rest (ground arith))
            ((λ h. ground arith, λ h. refl), (λ h. cc, λ h. ground arith))
    ]
    | inr e ↦
        rw (parse_user_location, known, e)
          ((λ h. cc, λ h. ground arith), (λ h. ground arith, λ h. refl))
  ]

  -- Of a structure that is copied as a whole nothing comes from what it held before.
  pub parse_user_location-exact :
      length rest ≡ n
      → parse_user_location junk (t ∷ rest) l loaded
        ≡ returned (pos 0) (fill_user_location t rest l) true
  unfolding parse_user_location
  parse_user_location-exact h =
      let enough : leb n (suc (length rest)) ≡ true = ground arith in
      rw (parse_user_location, known, enough, sym h, memcpy-exact junk rest) refl
