-- ===== src/SqlQueue/Worker.antt =====
-- The worker thread of a queue, pcrf_sql_queue_oper of src/pcrf_sql_queue.cpp: its outer loop,
-- with the requests that pcrf_sql_queue_enqueue adds between two passes.
use pcrf.Common.{
  zero, Bool, true, false, ◌&&◌, Option, none, some, List, [], ◌∷◌, ◌++◌, if◌then◌else◌,
}
use pcrf.Common.Int.{ℤ, negsuc}
use pcrf.SqlQueue.{SqlRequest}
use pcrf.SqlQueue.Pass.{Time, Call, World, pass}

-- What one round of the outer loop meets: whether the wait timed out and g_iWork is set; the
-- requests that were added since the last pass, up to the end of this one; the results of
-- pcrf_db_pool_get (true is 0 with a connection) and of pcrf_db_pool_restore; gettimeofday; and what
-- the pass meets.
pub record Tick (P : Type 0) : Type 0 where
  pub timed_out : Bool
  pub is_working : Bool
  pub added : List (SqlRequest P)
  pub got : Bool
  pub restored : ℤ
  pub start : Option Time
  pub world : World

-- Whether pcoDBConn is set, iRestoreConnection, and m_listSQLQueue.
pub record Worker (P : Type 0) : Type 0 where
  pub connected : Bool
  pub restore_connection : ℤ
  pub queue : List (SqlRequest P)

unfoldable is_lost : ℤ → Bool
is_lost (negsuc zero) = true
is_lost _ = false

-- The connection before a pass: whether there is one to use, and iRestoreConnection. Nothing is
-- pending then, so that a new session of the connection loses nothing.
unfoldable pub prepare : {P : Type 0} → Tick P → Worker P → Bool × Worker P
unfolding is_lost
prepare t w =
    if w.connected
    then (if is_lost w.restore_connection
        then (if is_lost t.restored
            then (false, record w { restore_connection = t.restored })
            else (true, record w { restore_connection = t.restored }))
        else (true, w))
    else (if t.got then (true, record w { connected = true }) else (false, w))

-- A round: what the connection is told, the worker, and whether the thread goes on.
unfoldable pub round : {P : Type 0} → Tick P → Worker P → List (Call P) × Worker P × Bool
unfolding prepare
round t w₀ =
    let w = record w₀ { queue = w₀.queue ++ t.added } in
    if t.timed_out && t.is_working
    then (let (usable, w') = prepare t w in
        if usable
        then elim t.start [
          | none ↦ ([], w', false)
          | some start ↦
              let p = pass t.world start w'.restore_connection w'.queue in
              (
                p.calls,
                record w' { queue = p.left; restore_connection = p.locals.restore_connection },
                true,
              )
        ]
        else ([], w', true))
    else ([], w, false)

-- The rounds until the thread ends. What is added behind its end stays in the queue.
unfoldable pub rounds : {P : Type 0} → List (Tick P) → Worker P → List (Call P) × Worker P
rounds [] w = ([], w)
rounds (t ∷ ts) w =
    let (calls, w', goes_on) = round t w in
    let (later, w'') = rounds ts w' in if goes_on then (calls ++ later, w'') else (calls, w')
