-- ===== src/Messages/Rules/Bandwidth.antt =====
-- The bit rates that pcrf_make_QoSI of src/pcrf_server.cpp grants.
use pcrf.Common.{
  ℕ, ◌≤◌, ◌≡◌, sym, subst, Bool, not, true, false, ◌||◌, some, List, [], ◌∷◌, ◌++◌, ◌==◌, arith,
  if◌then◌else◌,
}
use pcrf.Types.{OtlValue}
use pcrf.Messages.Rules.{RequestQos, limited, max_ul, max_dl, guaranteed_ul, guaranteed_dl}

-- A value that is given, as a list.
abbrev pub given : OtlValue ℕ → List ℕ
given o = if o.is_null then [] else o.v ∷ []

-- A number stands in a list, and is not above any of its numbers.
abbrev pub stands_in : ℕ → List ℕ → Bool
stands_in n [] = false
stands_in n (x ∷ xs) = (n == x) || stands_in n xs

abbrev IsBelow : ℕ → List ℕ → Type 0
IsBelow n [] = Unit {0}
IsBelow n (x ∷ xs) = (n ≤ x) × IsBelow n xs

abbrev pub IsLeast : ℕ → List ℕ → Type 0
IsLeast n xs = (stands_in n xs ≡ true) × IsBelow n xs

limited-one :
    (value v w : ℕ) (a b : Bool)
    → let requested : OtlValue ℕ = record { v = v; is_null = a } in
      let aggregate : OtlValue ℕ = record { v = w; is_null = b } in
      IsLeast (limited value requested false aggregate) (value ∷ given requested)
unfolding limited
limited-one value v w true b = ground arith
limited-one value v w false b = ground arith

limited-both :
    (value v w : ℕ) (a b : Bool)
    → let requested : OtlValue ℕ = record { v = v; is_null = a } in
      let aggregate : OtlValue ℕ = record { v = w; is_null = b } in
      IsLeast (limited value requested true aggregate) (value ∷ given requested ++ given aggregate)
unfolding limited
limited-both value v w true true = ground arith
limited-both value v w true false = ground arith
limited-both value v w false true = ground arith
limited-both value v w false false = ground arith

with_aggregate :
    (value : ℕ) (requested aggregate : OtlValue ℕ) (is_null : Bool)
    → is_null ≡ false
    → IsLeast
        (limited value requested (not is_null) aggregate)
        (value ∷ given requested ++ given aggregate)
with_aggregate value requested aggregate is_null h =
    subst
      (λ b.
        IsLeast (limited value requested (not b) aggregate)
          (value ∷ given requested ++ given aggregate))
      (sym h) (limited-both value requested.v aggregate.v requested.is_null aggregate.is_null)

-- For a request with QoS-Information: the maximum rates and the guaranteed uplink rate of a rule
-- are granted as the least of what the rule has, what the request asks for and the aggregate of
-- the APN, of those that are given. The guaranteed downlink rate is granted as the least of what
-- the rule has and the request asks for, whatever the aggregate is.
pub granted-IsLeast :
    (q : RequestQos) (value : ℕ)
    → q.qos_information.is_null ≡ false
    → let dl = q.qos_information.v.apn_aggregate_max_bitrate_dl in
      let ul = q.qos_information.v.apn_aggregate_max_bitrate_ul in
      IsLeast (max_ul (some q) value) (value ∷ given q.max_requested_bandwidth_ul ++ given ul)
      × IsLeast (max_dl (some q) value) (value ∷ given q.max_requested_bandwidth_dl ++ given dl)
      × IsLeast (guaranteed_ul (some q) value) (value ∷ given q.guaranteed_bitrate_ul ++ given ul)
      × IsLeast (guaranteed_dl (some q) value) (value ∷ given q.guaranteed_bitrate_dl)
unfolding max_ul max_dl guaranteed_ul guaranteed_dl
granted-IsLeast q value informed =
    let dl = q.qos_information.v.apn_aggregate_max_bitrate_dl in
    let ul = q.qos_information.v.apn_aggregate_max_bitrate_ul in
    (
      with_aggregate value q.max_requested_bandwidth_ul ul q.qos_information.is_null informed,
      with_aggregate value q.max_requested_bandwidth_dl dl q.qos_information.is_null informed,
      with_aggregate value q.guaranteed_bitrate_ul ul q.qos_information.is_null informed,
      subst
          (λ b.
            IsLeast (limited value q.guaranteed_bitrate_dl b dl)
              (value ∷ given q.guaranteed_bitrate_dl))
          (sym informed)
          (limited-one value q.guaranteed_bitrate_dl.v dl.v q.guaranteed_bitrate_dl.is_null
            dl.is_null),
    )
