-- ===== src/SqlQueue/Delivery.antt =====
-- What a worker thread of src/pcrf_sql_queue.cpp does over all its rounds with the requests of its
-- queue.
use mathlib.Core.List.{append-nil, append_assoc}
use pcrf.Common.{
  ℕ, suc, ◌≡◌, ◌≢◌, refl, sym, ap, ◌∙◌, ◌&&◌, none, List, [], ◌∷◌, ◌++◌, if◌then◌else◌, arith,
  Bool-cases, Option-cases, inl, inr, subst,
}
use pcrf.Common.Int.{ℤ}
use pcrf.SqlQueue.{SqlRequest}
use pcrf.SqlQueue.Pass.{Time, Call, World, pass}
use pcrf.SqlQueue.Accounts.{Interleaves, Interleaves-calls, IsWithin-append}
use pcrf.SqlQueue.Commits.{
  stored, taken, is_taken, pending, pending-append, discarded, discarded-append, dropped, complete,
  tried_in, tried_in-append, succeeded_in, succeeded_in-append,
}
use pcrf.SqlQueue.Durable.{discarded-pass, done-pass}
use pcrf.SqlQueue.Order.{IsWithin, ends, kept, skipped}
use pcrf.SqlQueue.Worker.{Tick, Worker, prepare, round, rounds}

module _ {P : Type 0} where
  -- gettimeofday does not fail in the passes of the rounds.
  abbrev pub HasClock : List (Tick P) → Type 0
  HasClock [] = Unit {0}
  HasClock (t ∷ ts) = ((i : ℕ) → t.world.now i ≢ none) × HasClock ts

  -- The requests added in the rounds that the thread lives through.
  unfoldable pub all_added : List (Tick P) → Worker P → List (SqlRequest P)
  all_added [] w = []
  all_added (t ∷ ts) w =
      let rest = all_added ts (round t w).1 in if (round t w).2 then t.added ++ rest else t.added

  IsWithin-taken :
      (w : World) (i : ℕ) (queue : List (SqlRequest P)) → IsWithin (taken w i queue) queue
  unfolding taken
  IsWithin-taken w i [] = ends
  IsWithin-taken w i (r ∷ queue) = elim (Bool-cases (is_taken r (w.exception i))) [
    | inl e ↦ rw e (kept r (IsWithin-taken w (suc i) queue))
    | inr e ↦ rw e (skipped r (IsWithin-taken w (suc i) queue))
  ]

  complete-append : (xs ys : List (SqlRequest P)) → complete (xs ++ ys) ≡ complete xs ++ complete ys
  unfolding complete
  complete-append [] ys = refl
  complete-append (x ∷ xs) ys = ground (arith, complete-append xs ys)

  -- What is left of the queue follows what was done; each complete request of that was run, and
  -- what succeeded stands within it. Nothing was rolled back, and nothing is pending.
  abbrev IsServed : List (SqlRequest P) → List (Call P) → List (SqlRequest P) → Type 0
  IsServed queue calls left =
      (done : List (SqlRequest P)) × (queue ≡ done ++ left)
      × IsWithin (complete done) (tried_in calls)
      × IsWithin (succeeded_in calls) done
      × (discarded calls [] ≡ [])
      × (pending calls [] ≡ [])

  queue-prepare : (t : Tick P) (w : Worker P) → (prepare t w).1.queue ≡ w.queue
  unfolding prepare
  queue-prepare t w = ground arith

  IsServed-none : {queue left : List (SqlRequest P)} → queue ≡ left → IsServed queue [] left
  unfolding complete tried_in succeeded_in discarded pending
  IsServed-none e = ([], e, ends, ends, refl, refl)

  IsServed-pass :
      (w : World) (start : Time) (restore : ℤ) (queue : List (SqlRequest P))
      → ((i : ℕ) → w.now i ≢ none)
      → IsServed queue (pass w start restore queue).calls (pass w start restore queue).left
  IsServed-pass w start restore queue clock =
      let (done, split, succeeds, tries) = done-pass w start restore queue clock in
      (
        done,
        split,
        tries,
        subst (λ x. IsWithin x done) (sym succeeds) (IsWithin-taken w 0 done),
        (discarded-pass w start restore queue).0,
        (discarded-pass w start restore queue).1,
      )

  IsServed-round :
      (t : Tick P) (w : Worker P)
      → ((i : ℕ) → t.world.now i ≢ none)
      → IsServed (w.queue ++ t.added) (round t w).0 (round t w).1.queue
  unfolding round
  IsServed-round t w clock =
      let w₁ : Worker P = record w { queue = w.queue ++ t.added } in
      let w₂ = (prepare t w₁).1 in
      let same = queue-prepare t w₁ in
      elim (Bool-cases (t.timed_out && t.is_working)) [
        | inr e ↦ rw (round, e) (IsServed-none refl)
        | inl e ↦ elim (Bool-cases (prepare t w₁).0) [
          | inr u ↦ rw (round, e, u) (IsServed-none (sym same))
          | inl u ↦ elim (Option-cases t.start) [
            | inl n ↦ rw (round, e, u, n) (IsServed-none (sym same))
            | inr (start, n) ↦
                rw (round, e, u, n)
                  (subst
                    (λ q.
                      IsServed q (pass t.world start w₂.restore_connection w₂.queue).calls
                        (pass t.world start w₂.restore_connection w₂.queue).left)
                    same (IsServed-pass t.world start w₂.restore_connection w₂.queue clock))
          ]
        ]
      ]

  IsServed-append :
      (queue added left left' : List (SqlRequest P)) (calls later : List (Call P))
      → IsServed queue calls left
      → IsServed (left ++ added) later left'
      → IsServed (queue ++ added) (calls ++ later) left'
  IsServed-append queue added left left' calls later (done, split, tries, within, discards, pends)
        (done', split', tries', within', discards', pends') =
      (
        done ++ done',
        ap (λ x. x ++ added) split
            ∙ append_assoc done left added
            ∙ ap (λ x. done ++ x) split'
            ∙ sym (append_assoc done done' left'),
        rw (complete-append done done', tried_in-append calls later) (IsWithin-append tries tries'),
        rw (succeeded_in-append calls later) (IsWithin-append within within'),
        rw (discarded-append calls later [], discards, pends) discards',
        rw (pending-append calls later [], pends) pends',
      )

  IsServed-rounds :
      (ts : List (Tick P)) (w : Worker P)
      → HasClock ts
      → IsServed (w.queue ++ all_added ts w) (rounds ts w).0 (rounds ts w).1.queue
  unfolding rounds all_added
  IsServed-rounds [] w h = IsServed-none (append-nil w.queue)
  IsServed-rounds (t ∷ ts) w h =
      let one = IsServed-round t w h.0 in
      let more = IsServed-rounds ts (round t w).1 h.1 in
      elim (Bool-cases (round t w).2) [
        | inl e ↦ rw e (
            subst
              (λ q.
                IsServed q ((round t w).0 ++ (rounds ts (round t w).1).0)
                  (rounds ts (round t w).1).1.queue)
              (append_assoc w.queue t.added _)
              (IsServed-append (w.queue ++ t.added) _ _ _ (round t w).0 (rounds ts (round t w).1).0
                one more))
        | inr e ↦ rw e one
      ]

  -- Over all rounds of a worker, whatever statements fail and however often the session of the
  -- connection is found lost behind a statement that fails, if gettimeofday does not fail: the
  -- requests that were queued and added are taken out of the queue from its beginning, and those
  -- that are left follow them. Of those taken out, each that has a statement and parameters was
  -- run, and the statements that succeeded are of them, each at most once and in their order. Each
  -- statement that succeeded is either kept in the database or was lost with a session before a
  -- commit, in the order of the queue: none is rolled back, and none is left uncommitted.
  pub IsWithin-rounds :
      (ts : List (Tick P)) (w : Worker P)
      → HasClock ts
      → let calls = (rounds ts w).0 in
        (done : List (SqlRequest P)) × (w.queue ++ all_added ts w ≡ done ++ (rounds ts w).1.queue)
        × IsWithin (complete done) (tried_in calls)
        × IsWithin (succeeded_in calls) done
        × Interleaves (stored calls []) (dropped calls []) (succeeded_in calls)
        × (discarded calls [] ≡ [])
        × (pending calls [] ≡ [])
  IsWithin-rounds ts w h =
      let (done, split, tries, within, discards, pends) = IsServed-rounds ts w h in
      (
        done,
        split,
        tries,
        within,
        Interleaves-calls (rounds ts w).0 [] discards pends,
        discards,
        pends,
      )
