-- ===== src/SqlQueue/Pass.antt =====
-- One pass of a worker over its queue: the inner loop of pcrf_sql_queue_oper and
-- pcrf_sql_queue_oper_single of src/pcrf_sql_queue.cpp. What the connection is told is a list of
-- calls; what it answers, the state of the connection and the time are parameters.
use pcrf.Common.{
  ℕ, suc, ◌+◌, Bool, true, false, Option, none, some, List, [], ◌∷◌, ◌++◌, ltb, leb, ◌==◌, ◌&&◌,
  ◌||◌, if◌then◌else◌,
}
use pcrf.Common.Int.{ℤ, pos, negsuc}
use pcrf.SqlQueue.{SqlRequest}
use pcrf.Types.{einval}

-- timeval.
pub record Time : Type 0 where
  pub sec : ℕ
  pub usec : ℕ

-- What happens to the connection: it is told to run a statement, which succeeds or throws; commit();
-- rollback(); or pcrf_db_pool_restore finds its session lost, and with it what is not committed.
pub data Call (P : Type 0) : Type 0 where
  succeeded : SqlRequest P → Call P
  failed : SqlRequest P → Call P
  commit : Call P
  rollback : Call P
  lost : Call P

-- What a pass meets at each request, counted from its beginning: otl_exception::code, or `none`
-- where the statement succeeds; the result of pcrf_db_pool_restore; gettimeofday, `none` where it
-- fails.
pub record World : Type 0 where
  pub exception : ℕ → Option ℕ
  pub restored : ℕ → ℤ
  pub now : ℕ → Option Time

-- pcrf_sql_queue_oper_single, for a connection that is not null: what the connection is told, and
-- the return value.
unfoldable oper_single : {P : Type 0} → SqlRequest P → Option ℕ → List (Call P) × ℕ
oper_single r exception = elim r.request [
  | none ↦ ([], einval)
  | some _ ↦ elim r.param_list [
    | none ↦ ([], einval)
    | some _ ↦ elim exception [
      | none ↦ (succeeded r ∷ [], 0)
      | some code ↦ (failed r ∷ (if r.rollback_on_fail then rollback ∷ [] else []), code)
    ]
  ]
]

-- The variables of the loop: soTVLastCommit, iCount, bShouldCommit and iRestoreConnection.
pub record Locals : Type 0 where
  pub last_commit : Time
  pub count : ℕ
  pub should_commit : Bool
  pub restore_connection : ℤ

-- Whether enough time has passed since the last commit.
unfoldable is_time : Time → Time → Bool
is_time last now = (ltb last.sec now.sec && leb last.usec now.usec) || ltb (last.sec + 1) now.sec

-- After a statement that returned 0: the calls, the locals, and whether the loop goes on.
unfoldable after_success : {P : Type 0} → Locals → Option Time → List (Call P) × Locals × Bool
unfolding is_time
after_success l now =
    if ltb 100 (l.count + 1)
    then (commit ∷ [], record l { count = 0; should_commit = false }, true)
    else if ltb 10 (l.count + 1)
    then elim now [
      | none ↦ ([], record l { count = l.count + 1; should_commit = true }, false)
      | some t ↦
          if is_time l.last_commit t
          then (
            commit ∷ [],
            record l { last_commit = t; count = l.count + 1; should_commit = false },
            true,
          )
          else ([], record l { count = l.count + 1; should_commit = true }, true)
    ]
    else ([], record l { count = l.count + 1; should_commit = true }, true)

-- After a statement that returned `code`: as above, or the restoration of the connection. A result
-- of it other than 0 means that the session of the connection is gone.
unfoldable after_single :
    {P : Type 0} → ℕ → ℤ → Option Time → Locals → List (Call P) × Locals × Bool
unfolding after_success
after_single code restored now l = if code == 0 then after_success l now else elim restored [
  | negsuc n ↦ (lost ∷ [], record l { restore_connection = negsuc n }, false)
  | pos n ↦ (if n == 0 then [] else lost ∷ [], record l { restore_connection = pos n }, n == 0)
]

-- The commit that saves the statements before one that is rolled back when it fails.
unfoldable commit_before : {P : Type 0} → SqlRequest P → List (Call P)
commit_before r = if r.rollback_on_fail then commit ∷ [] else []

-- The body of the inner loop for one request: the calls, the locals, and whether the request is
-- taken out of the queue and the loop goes on.
unfoldable pub serve :
    {P : Type 0}
    → SqlRequest P
    → Option ℕ
    → ℤ
    → Option Time
    → Locals
    → List (Call P) × Locals × Bool
unfolding oper_single after_single commit_before
serve r exception restored now l =
    let (calls, code) = oper_single r exception in
    let (commits, l', goes_on) = after_single code restored now l in
    (commit_before r ++ (calls ++ commits), l', goes_on)

-- What a pass has done: the calls, the requests that are left in the queue, and the locals.
pub record Passed (P : Type 0) : Type 0 where
  pub calls : List (Call P)
  pub left : List (SqlRequest P)
  pub locals : Locals

-- The inner loop, from the request with number `i` on. A request that is left is still queued.
unfoldable pub run_queue : {P : Type 0} → World → ℕ → Locals → List (SqlRequest P) → Passed P
run_queue w i l [] = record { calls = []; left = []; locals = l }
run_queue w i l (r ∷ queue) =
    let (told, l', goes_on) = serve r (w.exception i) (w.restored i) (w.now i) l in
    let rest = run_queue w (suc i) l' queue in
    if goes_on
    then record { calls = told ++ rest.calls; left = rest.left; locals = rest.locals }
    else record { calls = told; left = r ∷ queue; locals = l' }

abbrev pub new_locals : Time → ℤ → Locals
new_locals start restore = record {
  last_commit = start;
  count = 0;
  should_commit = false;
  restore_connection = restore;
}

unfoldable pub commit_after : {P : Type 0} → Locals → List (Call P)
commit_after l = if l.should_commit then commit ∷ [] else []

-- A pass: the loop, and the commit behind it.
unfoldable pub pass : {P : Type 0} → World → Time → ℤ → List (SqlRequest P) → Passed P
unfolding run_queue commit_after
pass w start restore queue =
    let done = run_queue w 0 (new_locals start restore) queue in
    record done { calls = done.calls ++ commit_after done.locals }
