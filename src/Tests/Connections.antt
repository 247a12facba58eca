-- ===== src/Tests/Connections.antt =====
-- The theorems on the pool of connections: a pool of one connection, two threads.
use pcrf.Common.{ℕ, ◌≡◌, false, [], ◌∷◌, some}
use pcrf.DbPool.{
  Pool, outside, scanning, holding, wait, Reachable, start, step, run_loop, lock_of, init,
  pool_size, all_free, all_outside,
}
use pcrf.DbPool.Safety.{IsSafe, Reachable-IsSafe, run_loop-holding}

-- The first thread has taken the unit of the semaphore.
abbrev one_waited : Pool
one_waited = record { sem = 0; locked = false ∷ [] }

one_waited-Reachable : Reachable 1 2 one_waited (scanning 0 ∷ outside ∷ [])
unfolding init pool_size all_free all_outside
one_waited-Reachable = step [] (outside ∷ []) start wait

Reachable-IsSafe_example : IsSafe one_waited (scanning 0 ∷ outside ∷ [])
Reachable-IsSafe_example =
    Reachable-IsSafe 1 2 one_waited (scanning 0 ∷ outside ∷ []) one_waited-Reachable

run_loop-holding_example :
    (j : ℕ) × ((run_loop 1 0 one_waited).1 ≡ holding j) × (lock_of j (false ∷ []) ≡ some false)
run_loop-holding_example = run_loop-holding 1 2 0 one_waited [] (outside ∷ []) one_waited-Reachable
