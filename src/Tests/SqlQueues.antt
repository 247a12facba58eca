-- ===== src/Tests/SqlQueues.antt =====
-- The theorems on the queues of SQL statements, and runs of their model.
use pcrf.Common.{
  ℕ, zero, suc, ◌%◌, ◌<◌, ◌≡◌, ◌↔◌, refl, true, false, Option, none, some, List, [], ◌∷◌, ◌++◌,
  arith,
}
use pcrf.Common.Text.{Text, bytes, text_eq}
use pcrf.Common.Int.{pos}
use pcrf.SqlQueue.{SqlRequest, Queues, elem, thread_index, enqueue_all}
use pcrf.SqlQueue.Choice.{below_zero, thread_index-lt}
use pcrf.SqlQueue.Order.{IsWithin, of_session, IsWithin-enqueue_all}
use pcrf.SqlQueue.Pass.{Time, World, pass}
use pcrf.SqlQueue.Accounts.{Interleaves}
use pcrf.SqlQueue.Commits.{
  pending, stored, taken, discarded, dropped, complete, tried_in, succeeded_in,
}
use pcrf.SqlQueue.Durable.{left-pass}
use pcrf.SqlQueue.Worker.{Tick, Worker, rounds}
use pcrf.SqlQueue.Delivery.{all_added, IsWithin-rounds}

abbrev insert_sql : SqlRequest ℕ
insert_sql = record {
  request = some (bytes "insert into t values (:a)");
  param_list = some (7 ∷ []);
  req_name = bytes "insert";
  rollback_on_fail = false;
}

abbrev update_sql : SqlRequest ℕ
update_sql = record insert_sql { req_name = bytes "update"; rollback_on_fail = true }

abbrev two_queues : Queues ℕ
two_queues = record { queues = [] ∷ [] ∷ []; round_index = 0 }

abbrev session : Text
session = bytes "pcef;1;5"

-- A negative number at the end of a Session-Id leads out of the array.
out_of_bounds : thread_index 3 0 (some (bytes "pcef;1;-1")) ≡ (4294967295, 0)
unfolding thread_index
out_of_bounds = refl

thread_index-lt_example :
    ((thread_index 2 0 (some session)).0 < 2) ↔ (below_zero (some session) % 2 ≡ 0)
thread_index-lt_example = thread_index-lt 2 0 (some session) (omega arith) (omega arith)

-- Two calls for the session with one without a session between them.
abbrev three_calls : List (Option Text × SqlRequest ℕ)
three_calls = (some session, insert_sql) ∷ (none, update_sql) ∷ (some session, update_sql) ∷ []

abbrev after_calls : Queues ℕ
after_calls = record {
  queues = (update_sql ∷ []) ∷ (insert_sql ∷ update_sql ∷ []) ∷ [];
  round_index = 1;
}

IsWithin-enqueue_all_example :
    (pushed : List (SqlRequest ℕ)) × (elem 1 after_calls.queues ≡ some ([] ++ pushed))
    × IsWithin (insert_sql ∷ update_sql ∷ []) pushed
unfolding enqueue_all thread_index of_session elem text_eq
IsWithin-enqueue_all_example =
    IsWithin-enqueue_all session three_calls two_queues after_calls refl refl refl

-- The first statement succeeds, the second one throws and is rolled back.
abbrev second_throws : World
second_throws = record {
  exception = λ i. elim i [ zero ↦ none | suc _ ↦ some 1 ];
  restored = λ _. pos 0;
  now = λ _. some (record { sec = 10; usec = 0 });
}

abbrev start : Time
start = record { sec = 9; usec = 0 }

left-pass_example :
    ((pass second_throws start (pos 0) (insert_sql ∷ update_sql ∷ [])).left ≡ [])
    × (stored (pass second_throws start (pos 0) (insert_sql ∷ update_sql ∷ [])).calls []
        ≡ insert_sql ∷ [])
unfolding taken
left-pass_example =
    left-pass second_throws start (pos 0) (insert_sql ∷ update_sql ∷ []) (λ _. ground arith)
      (λ _. refl)

-- The same, but the session of the connection is lost with the first statement.
abbrev session_lost : World
session_lost = record second_throws { restored = λ _. pos 1 }

-- A round that finds a connection and a queue of two requests; then the end of the thread.
abbrev ticks : List (Tick ℕ)
ticks =
    record {
      timed_out = true;
      is_working = true;
      added = insert_sql ∷ [];
      got = true;
      restored = pos 0;
      start = some start;
      world = session_lost;
    }
    ∷ []

abbrev fresh : Worker ℕ
fresh = record { connected = false; restore_connection = pos 0; queue = insert_sql ∷ [] }

IsWithin-rounds_example :
    let calls = (rounds ticks fresh).0 in
    (done : List (SqlRequest ℕ)) × (fresh.queue ++ all_added ticks fresh
      ≡ done ++ (rounds ticks fresh).1.queue)
    × IsWithin (complete done) (tried_in calls)
    × IsWithin (succeeded_in calls) done
    × Interleaves (stored calls []) (dropped calls []) (succeeded_in calls)
    × (discarded calls [] ≡ [])
    × (pending calls [] ≡ [])
IsWithin-rounds_example = IsWithin-rounds ticks fresh (λ _. ground arith, tt)
