-- ===== src/SqlQueue/Choice.antt =====
-- Which queue pcrf_sql_queue_enqueue of src/pcrf_sql_queue.cpp chooses, and whether it is one of
-- the array.
use pcrf.Common.{
  ℕ, zero, suc, ◌%◌, ◌≤◌, ◌<◌, ◌≡◌, ◌↔◌, refl, Option, none, some, List, [], ◌∷◌, ◌++◌, ◌==◌,
  if◌then◌else◌, arith, Option-cases, inl, inr,
}
use pcrf.Common.Text.{Text}
use pcrf.Common.Lists.{length}
use pcrf.Common.Int.{ℤ, pos, negsuc, neg_part}
use pcrf.SqlQueue.{elem, push_at, next_round, thread_index}
use pcrf.SqlQueue.Number.{number_after_last, remainder_u32}

-- How far below 0 the number behind the last ';' is; 0 where there is none.
unfoldable pub below_zero : Option Text → ℕ
below_zero none = 0
below_zero (some session_id) = elim (number_after_last session_id) [
  | none ↦ 0
  | some n ↦ neg_part n
]

remainder_u32-lt :
    (n : ℤ) (count : ℕ)
    → 0 < count
    → count < 2147483648
    → (remainder_u32 n count < count) ↔ (neg_part n % count ≡ 0)
unfolding remainder_u32
remainder_u32-lt (pos n) count h k = (λ _. grind arith, λ _. grind arith)
remainder_u32-lt (negsuc n) count h k = grind arith

next_round-lt : (count round : ℕ) → 0 < count → (next_round count round).0 < count
unfolding next_round
next_round-lt count round h = grind arith

zero-mod : (count : ℕ) → 0 < count → 0 % count ≡ 0
zero-mod count h = grind arith

-- For less than 2^31 queues, the index for a session id is that of a queue exactly where the
-- number behind its last ';' is not negative or is a multiple of the number of queues; without a
-- session id, or a ';' in it, it always is.
pub thread_index-lt :
    (count round : ℕ) (session_id : Option Text)
    → 0 < count
    → count < 2147483648
    → ((thread_index count round session_id).0 < count) ↔ (below_zero session_id % count ≡ 0)
unfolding thread_index below_zero
thread_index-lt count round none h k = (λ _. zero-mod count h, λ _. next_round-lt count round h)
thread_index-lt count round (some s) h k = elim (Option-cases (number_after_last s)) [
  | inl e ↦
      rw (thread_index, below_zero, e) (λ _. zero-mod count h, λ _. next_round-lt count round h)
  | inr (n, e) ↦ rw (thread_index, below_zero, e) (remainder_u32-lt n count h k)
]

-- The index of a session with a ';' in its id does not depend on the calls before.
pub thread_index-fixed :
    (count round round' : ℕ) (s : Text) {n : ℤ}
    → number_after_last s ≡ some n
    → ((thread_index count round (some s)).0 ≡ (thread_index count round' (some s)).0)
unfolding thread_index
thread_index-fixed count round round' s e = rw (thread_index, e) refl

module _ {A : Type 0} where
  pub push_at-lt :
      (i : ℕ) (r : A) (qs : List (List A))
      → i < length qs
      → (qs' : List (List A)) × (push_at i r qs ≡ some qs')
  unfolding push_at
  push_at-lt i r [] h = absurd (omega arith)
  push_at-lt zero r (q ∷ qs) h = (_, refl)
  push_at-lt (suc i) r (q ∷ qs) h =
      let (qs', e) = push_at-lt i r qs (omega arith) in (q ∷ qs', rw e refl)

  pub push_at-none : (i : ℕ) (r : A) (qs : List (List A)) → length qs ≤ i → push_at i r qs ≡ none
  unfolding push_at
  push_at-none i r [] h = refl
  push_at-none zero r (q ∷ qs) h = absurd (omega arith)
  push_at-none (suc i) r (q ∷ qs) h = rw (push_at-none i r qs (omega arith)) refl

  -- Only the queue at the index is changed, and it grows at its end.
  pub elem-push_at :
      (i j : ℕ) (r : A) (qs : List (List A)) {qs' : List (List A)}
      → push_at i r qs ≡ some qs'
      → elem j qs'
        ≡ elim (elem j qs) [ none ↦ none | some q ↦ some (if i == j then q ++ (r ∷ []) else q) ]
  unfolding push_at elem
  elem-push_at i j r [] h = ground arith
  elem-push_at zero zero r (q ∷ qs) h = ground arith
  elem-push_at zero (suc j) r (q ∷ qs) h = ground arith
  elem-push_at (suc i) zero r (q ∷ qs) h = elim (Option-cases (push_at i r qs)) [
    | inl e ↦ ground arith
    | inr (qs₁, e) ↦ ground arith
  ]
  elem-push_at (suc i) (suc j) r (q ∷ qs) h = elim (Option-cases (push_at i r qs)) [
    | inl e ↦ ground arith
    | inr (qs₁, e) ↦ ground (arith, elem-push_at i j r qs e)
  ]

  pub length-push_at :
      (i : ℕ) (r : A) (qs : List (List A)) {qs' : List (List A)}
      → push_at i r qs ≡ some qs'
      → length qs' ≡ length qs
  unfolding push_at
  length-push_at i r [] h = ground arith
  length-push_at zero r (q ∷ qs) h = ground arith
  length-push_at (suc i) r (q ∷ qs) h = elim (Option-cases (push_at i r qs)) [
    | inl e ↦ ground arith
    | inr (qs₁, e) ↦ ground (arith, length-push_at i r qs e)
  ]
