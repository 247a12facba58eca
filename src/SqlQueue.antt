-- ===== src/SqlQueue.antt =====
-- The queues of SQL statements of src/pcrf_sql_queue.cpp: the queue that pcrf_sql_queue_enqueue
-- chooses, and the pass of a worker thread over its queue, pcrf_sql_queue_oper.
pub mod Number
pub mod Choice
pub mod Order
pub mod Pass
pub mod Accounts
pub mod Commits
pub mod Durable
pub mod Worker
pub mod Delivery
use pcrf.Common.{
  ℕ, zero, suc, ◌+◌, ◌/◌, ◌%◌, Bool, true, false, Option, none, some, List, [], ◌∷◌, ◌++◌, ◌==◌,
  if◌then◌else◌,
}
use pcrf.Common.Text.{Text}
use pcrf.Common.Lists.{length}
use pcrf.SqlQueue.Number.{number_after_last, remainder_u32}

-- SSQLRequestInfo. SSQLQueueParam is an abstract class: its values are a parameter. A null
-- pointer is `none`.
pub record SqlRequest (Param : Type 0) : Type 0 where
  pub request : Option Text
  pub param_list : Option (List Param)
  pub req_name : Text
  pub rollback_on_fail : Bool

-- g_pmsoSQLQueue, an array of g_uiQueueCount queues, and uiRoundIndex of pcrf_sql_queue_enqueue.
pub record Queues (Param : Type 0) : Type 0 where
  pub queues : List (List (SqlRequest Param))
  pub round_index : ℕ

module _ {ℓ} {A : Type ℓ} where
  unfoldable pub elem : ℕ → List A → Option A
  elem i [] = none
  elem zero (x ∷ xs) = some x
  elem (suc i) (x ∷ xs) = elem i xs

  -- push_back on the queue at an index; `none` is an access out of the bounds of the array.
  unfoldable pub push_at : ℕ → A → List (List A) → Option (List (List A))
  push_at i r [] = none
  push_at zero r (q ∷ qs) = some ((q ++ (r ∷ [])) ∷ qs)
  push_at (suc i) r (q ∷ qs) = elim (push_at i r qs) [ none ↦ none | some qs' ↦ some (q ∷ qs') ]

  unfoldable pub empty_queues : ℕ → List (List A)
  empty_queues zero = []
  empty_queues (suc n) = [] ∷ empty_queues n

-- pcrf_sql_queue_init, for a pool of `n` connections; `none` is EINVAL.
unfoldable pub init : {P : Type 0} → ℕ → Option (Queues P)
unfolding empty_queues
init n =
    if n / 4 == 0 then none else some (record { queues = empty_queues (n / 4); round_index = 0 })

-- uiRoundIndex %= g_uiQueueCount; uiThreadIndex = uiRoundIndex++: the index and the new round.
unfoldable pub next_round : ℕ → ℕ → ℕ × ℕ
next_round count round = (round % count, (round % count + 1) % 4294967296)

-- The index of the queue for a session id, and the new round.
unfoldable pub thread_index : ℕ → ℕ → Option Text → ℕ × ℕ
unfolding next_round number_after_last remainder_u32
thread_index count round none = next_round count round
thread_index count round (some session_id) = elim (number_after_last session_id) [
  | none ↦ next_round count round
  | some n ↦ (remainder_u32 n count, round)
]

-- pcrf_sql_queue_enqueue.
unfoldable pub enqueue : {P : Type 0} → Option Text → SqlRequest P → Queues P → Option (Queues P)
unfolding thread_index push_at
enqueue session_id r q =
    let (i, round) = thread_index (length q.queues) q.round_index session_id in
    elim (push_at i r q.queues) [
      | none ↦ none
      | some qs ↦ some (record { queues = qs; round_index = round })
    ]

-- Calls of pcrf_sql_queue_enqueue, one after the other.
unfoldable pub enqueue_all :
    {P : Type 0} → List (Option Text × SqlRequest P) → Queues P → Option (Queues P)
unfolding enqueue
enqueue_all [] q = some q
enqueue_all ((s, r) ∷ calls) q = elim (enqueue s r q) [
  | none ↦ none
  | some q' ↦ enqueue_all calls q'
]
