-- ===== src/SqlQueue/Order.antt =====
-- The order in which the calls of pcrf_sql_queue_enqueue of src/pcrf_sql_queue.cpp leave their
-- requests in the queues.
use pcrf.Common.{
  ℕ, ◌%◌, ◌<◌, ◌≡◌, refl, sym, subst, ap, ◌∙◌, Bool, true, false, Option, none, some, List, [], ◌∷◌,
  ◌++◌, ◌==◌, if◌then◌else◌, arith, Option-cases, Bool-cases, inl, inr, ==_iff,
}
use mathlib.Core.List.{append-nil, append_assoc}
use pcrf.Common.Text.{Text, text_eq, text_eq_iff}
use pcrf.Common.Lists.{length}
use pcrf.Common.Int.{ℤ}
use pcrf.SqlQueue.{SqlRequest, Queues, elem, push_at, thread_index, enqueue, enqueue_all}
use pcrf.SqlQueue.Number.{number_after_last}
use pcrf.SqlQueue.Choice.{
  below_zero, thread_index-lt, thread_index-fixed, push_at-lt, elem-push_at, length-push_at,
}

-- The elements of the first list stand in the second in the same order, others between them.
pub data IsWithin {A : Type 0} : List A → List A → Type 0 where
  ends : IsWithin [] []
  kept : (x : A) {xs ys : List A} → IsWithin xs ys → IsWithin (x ∷ xs) (x ∷ ys)
  skipped : (y : A) {xs ys : List A} → IsWithin xs ys → IsWithin xs (y ∷ ys)

-- Whether a call is one for the session `s`.
unfoldable is_for : Text → Option Text → Bool
is_for s none = false
is_for s (some t) = text_eq s t

is_for-eq : (s : Text) (t : Option Text) → is_for s t ≡ true → t ≡ some s
unfolding is_for
is_for-eq s none h = ground arith
is_for-eq s (some t) h = ground (arith, text_eq_iff s t)

module _ {P : Type 0} where
  -- The requests of the calls for the session `s`, in order.
  unfoldable pub of_session : Text → List (Option Text × SqlRequest P) → List (SqlRequest P)
  unfolding is_for
  of_session s [] = []
  of_session s ((t, r) ∷ calls) =
      let rest = of_session s calls in if is_for s t then r ∷ rest else rest

  -- What is pushed on the queue `k` by calls from a round index on.
  pushed_on : ℕ → ℕ → ℕ → List (Option Text × SqlRequest P) → List (SqlRequest P)
  pushed_on k count round [] = []
  pushed_on k count round ((t, r) ∷ calls) =
      let rest = pushed_on k count (thread_index count round t).1 calls in
      if (thread_index count round t).0 == k then r ∷ rest else rest

  skip_one :
      (b : Bool) (r : SqlRequest P) (xs ys : List (SqlRequest P))
      → IsWithin xs ys
      → IsWithin xs (if b then r ∷ ys else ys)
  skip_one true r xs ys w = skipped r w
  skip_one false r xs ys w = w

  IsWithin-pushed_on :
      (s : Text) {n : ℤ} (count round round₀ : ℕ) (calls : List (Option Text × SqlRequest P))
      → number_after_last s ≡ some n
      → IsWithin
          (of_session s calls)
          (pushed_on (thread_index count round₀ (some s)).0 count round calls)
  unfolding of_session pushed_on
  IsWithin-pushed_on s count round round₀ [] h = ends
  IsWithin-pushed_on s count round round₀ ((t, r) ∷ calls) h =
      let k = (thread_index count round₀ (some s)).0 in
      let ih = IsWithin-pushed_on s count (thread_index count round t).1 round₀ calls h in
      elim (Bool-cases (is_for s t)) [
        | inl e ↦
            rw
              (
                e,
                (==_iff (thread_index count round t).0 k).1 (
                    subst (λ u. (thread_index count round u).0 ≡ k) (sym (is_for-eq s t e))
                      (thread_index-fixed count round round₀ s h)),
              )
              (kept r ih)
        | inr e ↦ rw e (skip_one ((thread_index count round t).0 == k) r _ _ ih)
      ]

  enqueue_result :
      (t : Option Text) (r : SqlRequest P) (q q' : Queues P)
      → enqueue t r q ≡ some q'
      → (push_at (thread_index (length q.queues) q.round_index t).0 r q.queues ≡ some q'.queues)
        × (q'.round_index ≡ (thread_index (length q.queues) q.round_index t).1)
  unfolding enqueue
  enqueue_result t r q q' h =
      elim (Option-cases (push_at (thread_index (length q.queues) q.round_index t).0 r q.queues)) [
        | inl e ↦ ground arith
        | inr (qs, e) ↦ ground arith
      ]

  -- After any calls, each queue holds what it held, followed by what was pushed on it.
  elem-enqueue_all :
      (k : ℕ) (calls : List (Option Text × SqlRequest P)) (q q' : Queues P)
      {l : List (SqlRequest P)}
      → enqueue_all calls q ≡ some q'
      → elem k q.queues ≡ some l
      → elem k q'.queues ≡ some (l ++ pushed_on k (length q.queues) q.round_index calls)
  unfolding enqueue_all pushed_on
  elem-enqueue_all k [] q q' {l} h g = ground (arith, append-nil l)
  elem-enqueue_all k ((t, r) ∷ calls) q q' {l} h g = elim (Option-cases (enqueue t r q)) [
    | inl e ↦ ground arith
    | inr (q₁, e) ↦
        let (p, i) = enqueue_result t r q q₁ e in
        let len = length-push_at _ r q.queues p in
        let later : enqueue_all calls q₁ ≡ some q' = ground arith in
        let grown = elem-push_at _ k r q.queues p in
        elim (Bool-cases ((thread_index (length q.queues) q.round_index t).0 == k)) [
          | inl b ↦
              let here : elem k q₁.queues ≡ some (l ++ (r ∷ [])) = ground (arith, grown) in
              let ih = elem-enqueue_all k calls q₁ q' later here in
              rw b (
                ih
                ∙ ap some (append_assoc l (r ∷ []) _)
                ∙ ap (λ n. some (l ++ (r ∷ pushed_on k n q₁.round_index calls))) len
                ∙ ap (λ n. some (l ++ (r ∷ pushed_on k (length q.queues) n calls))) i)
          | inr b ↦
              let here : elem k q₁.queues ≡ some l = ground (arith, grown) in
              let ih = elem-enqueue_all k calls q₁ q' later here in
              rw b (
                ih
                ∙ ap (λ n. some (l ++ pushed_on k n q₁.round_index calls)) len
                ∙ ap (λ n. some (l ++ pushed_on k (length q.queues) n calls)) i)
        ]
  ]

  -- The requests of the calls for one session, whose id ends with ';' and a number, stand behind
  -- what its queue held and in the order of the calls, whatever calls for other sessions or for
  -- none stand between them, if no call writes out of the bounds of the array.
  pub IsWithin-enqueue_all :
      (s : Text) {n : ℤ} (calls : List (Option Text × SqlRequest P)) (q q' : Queues P)
      {l : List (SqlRequest P)}
      → number_after_last s ≡ some n
      → enqueue_all calls q ≡ some q'
      → elem (thread_index (length q.queues) q.round_index (some s)).0 q.queues ≡ some l
      → (pushed : List (SqlRequest P)) × (elem
            (thread_index (length q.queues) q.round_index (some s)).0
            q'.queues
          ≡ some (l ++ pushed))
        × IsWithin (of_session s calls) pushed
  IsWithin-enqueue_all s calls q q' m h g = (
    pushed_on (thread_index (length q.queues) q.round_index (some s)).0 (length q.queues)
        q.round_index calls,
    elem-enqueue_all _ calls q q' h g,
    IsWithin-pushed_on s (length q.queues) q.round_index q.round_index calls m,
  )

  -- pcrf_sql_queue_enqueue writes within the array, at the end of one queue and nowhere else, if
  -- the index for the session id is one of the array.
  pub elem-enqueue :
      (t : Option Text) (r : SqlRequest P) (q : Queues P) (k : ℕ)
      → 0 < length q.queues
      → length q.queues < 2147483648
      → below_zero t % length q.queues ≡ 0
      → (q' : Queues P) × (enqueue t r q ≡ some q')
        × (length q'.queues ≡ length q.queues)
        × (elem k q'.queues ≡ elim (elem k q.queues) [
          | none ↦ none
          | some l ↦
              some (
                if (thread_index (length q.queues) q.round_index t).0 == k
                then l ++ (r ∷ [])
                else l)
        ])
  unfolding enqueue
  elem-enqueue t r q k h m z =
      let (i, round) = thread_index (length q.queues) q.round_index t in
      let (qs, e) =
        push_at-lt i r q.queues ((thread_index-lt (length q.queues) q.round_index t h m).1 z) in
      (
        record { queues = qs; round_index = round },
        rw (enqueue, e) refl,
        length-push_at i r q.queues e,
        elem-push_at i k r q.queues e,
      )
