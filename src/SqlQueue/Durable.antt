-- ===== src/SqlQueue/Durable.antt =====
-- What the loop and the pass of pcrf_sql_queue_oper of src/pcrf_sql_queue.cpp leave in the
-- database and in the queue.
use mathlib.Core.List.{append-nil}
use pcrf.Common.{
  ℕ, suc, ◌≡◌, ◌≢◌, inl, inr, refl, sym, ap, ◌∙◌, subst, none, List, [], ◌∷◌, ◌++◌, if◌then◌else◌,
  arith, Bool-cases,
}
use pcrf.Common.Int.{ℤ, pos}
use pcrf.SqlQueue.{SqlRequest}
use pcrf.SqlQueue.Pass.{
  Time, World, Locals, Passed, serve, run_queue, pass, new_locals, commit_after,
}
use pcrf.SqlQueue.Order.{IsWithin, ends}
use pcrf.SqlQueue.Accounts.{
  Interleaves, Interleaves-first, Interleaves-calls, IsWithin-append, IsWithin-same, IsWithin-none,
}
use pcrf.SqlQueue.Commits.{
  pending, stored, discarded, dropped, succeeded_in, tried_in, complete, is_complete,
  pending-append, discarded-append, dropped-append, succeeded_in-append, tried_in-append, is_taken,
  taken, Saved, discarded-serve, Saved-serve, succeeded_in-serve, tried_in-serve, dropped-serve,
  stops-serve, goes_on-serve,
}

module _ {P : Type 0} where
  -- Of the loop: nothing is discarded, and what is pending behind it is known to be.
  run_queue_saves :
      (w : World) (i : ℕ) (l : Locals) (queue p : List (SqlRequest P))
      → Saved l p
      → (discarded (run_queue w i l queue).calls p ≡ [])
        × Saved (run_queue w i l queue).locals (pending (run_queue w i l queue).calls p)
  unfolding run_queue
  run_queue_saves w i l [] p s = (unfold discarded in refl, unfold pending in s)
  run_queue_saves w i l (r ∷ queue) p s =
      let told = serve r (w.exception i) (w.restored i) (w.now i) l in
      let rest = run_queue w (suc i) told.1 queue in
      let saved = Saved-serve r (w.exception i) (w.restored i) (w.now i) l p s in
      let lost = discarded-serve r (w.exception i) (w.restored i) (w.now i) l p s in
      let ih = run_queue_saves w (suc i) told.1 queue (pending told.0 p) saved in
      elim (Bool-cases told.2) [
        | inl g ↦ rw g (
          rw (discarded-append told.0 rest.calls p, lost) ih.0,
          rw (pending-append told.0 rest.calls p) ih.1,
        )
        | inr g ↦ rw g (lost, saved)
      ]

  -- What is proved of the loop.
  record IsDone (w : World) (i : ℕ) (queue : List (SqlRequest P)) (d : Passed P) : Type 0 where
    done : List (SqlRequest P)
    split : queue ≡ done ++ d.left
    succeeds : succeeded_in d.calls ≡ taken w i done
    tries : IsWithin (complete done) (tried_in d.calls)

  taken-cons :
      (w : World) (i : ℕ) (r : SqlRequest P) (queue : List (SqlRequest P))
      → taken w i (r ∷ queue)
        ≡ (if is_taken r (w.exception i) then r ∷ [] else []) ++ taken w (suc i) queue
  unfolding taken
  taken-cons w i r queue = ground arith

  complete-cons :
      (r : SqlRequest P) (queue : List (SqlRequest P))
      → complete (r ∷ queue) ≡ (if is_complete r then r ∷ [] else []) ++ complete queue
  unfolding complete
  complete-cons r queue = ground arith

  run_queue-IsDone :
      (w : World) (clock : (i : ℕ) → w.now i ≢ none) (i : ℕ) (l : Locals)
      (queue p : List (SqlRequest P))
      → Saved l p
      → IsDone w i queue (run_queue w i l queue)
  unfolding run_queue
  run_queue-IsDone w clock i l [] p s = record {
    done = [];
    split = refl;
    succeeds = unfold succeeded_in taken in refl;
    tries = unfold complete tried_in in ends;
  }
  run_queue-IsDone w clock i l (r ∷ queue) p s =
      let told = serve r (w.exception i) (w.restored i) (w.now i) l in
      let rest = run_queue w (suc i) told.1 queue in
      let ih =
        run_queue-IsDone w clock (suc i) told.1 queue (pending told.0 p)
          (Saved-serve r (w.exception i) (w.restored i) (w.now i) l p s) in
      let succeeds₁ = succeeded_in-serve r (w.exception i) (w.restored i) (w.now i) l p s in
      let tries₁ = tried_in-serve r (w.exception i) (w.restored i) (w.now i) l p s in
      elim (Bool-cases told.2) [
        | inl g ↦ rw g record {
          done = r ∷ ih.done;
          split = ap (λ x. r ∷ x) ih.split;
          succeeds =
              rw (taken-cons w i r ih.done, succeeded_in-append told.0 rest.calls, succeeds₁)
                (ap (λ x. (if is_taken r (w.exception i) then r ∷ [] else []) ++ x) ih.succeeds);
          tries =
              rw (complete-cons r ih.done, tried_in-append told.0 rest.calls, tries₁)
                (IsWithin-append (IsWithin-same _) ih.tries);
        }
        | inr g ↦ rw g record {
          done = [];
          split = refl;
          succeeds =
              unfold taken in
              rw (stops-serve r (w.exception i) (w.restored i) (w.now i) l p s (clock i) g) at
                succeeds₁;
          tries = unfold complete in IsWithin-none _;
        }
      ]

  -- Where the connection works at each failure, the loop reaches the end of the queue.
  run_queue-left :
      (w : World) (clock : (i : ℕ) → w.now i ≢ none) (works : (i : ℕ) → w.restored i ≡ pos 0)
      (i : ℕ) (l : Locals) (queue p : List (SqlRequest P))
      → Saved l p
      → (run_queue w i l queue).left ≡ []
  unfolding run_queue
  run_queue-left w clock works i l [] p s = refl
  run_queue-left w clock works i l (r ∷ queue) p s =
      let told = serve r (w.exception i) (w.restored i) (w.now i) l in
      rw (goes_on-serve r (w.exception i) (w.restored i) (w.now i) l p s (clock i) (works i)) (
        run_queue-left w clock works (suc i) told.1 queue (pending told.0 p)
          (Saved-serve r (w.exception i) (w.restored i) (w.now i) l p s))

  -- and no statement is lost.
  run_queue-dropped :
      (w : World) (works : (i : ℕ) → w.restored i ≡ pos 0) (i : ℕ) (l : Locals)
      (queue p : List (SqlRequest P))
      → Saved l p
      → dropped (run_queue w i l queue).calls p ≡ []
  unfolding run_queue
  run_queue-dropped w works i l [] p s = unfold dropped in refl
  run_queue-dropped w works i l (r ∷ queue) p s =
      let told = serve r (w.exception i) (w.restored i) (w.now i) l in
      let rest = run_queue w (suc i) told.1 queue in
      let lost = dropped-serve r (w.exception i) (w.restored i) (w.now i) l p s (works i) in
      let ih =
        run_queue-dropped w works (suc i) told.1 queue (pending told.0 p)
          (Saved-serve r (w.exception i) (w.restored i) (w.now i) l p s) in
      elim (Bool-cases told.2) [
        | inl g ↦ rw g (rw (dropped-append told.0 rest.calls p, lost) ih)
        | inr g ↦ rw g lost
      ]

  commit_after_lem :
      (l : Locals) (p : List (SqlRequest P))
      → Saved l p
      → (discarded (commit_after l) p ≡ [])
        × (pending (commit_after l) p ≡ [])
        × (dropped (commit_after l) p ≡ [])
        × (succeeded_in (commit_after {P = P} l) ≡ [])
        × (tried_in (commit_after {P = P} l) ≡ [])
  unfolding discarded pending dropped succeeded_in tried_in commit_after
  commit_after_lem l p s = ground (arith)

  module _ (w : World) (start : Time) (restore : ℤ) (queue : List (SqlRequest P)) where
    abbrev loop : Passed P
    loop = run_queue w 0 (new_locals start restore) queue

    loop_saves : (discarded loop.calls [] ≡ []) × Saved loop.locals (pending loop.calls [])
    loop_saves = run_queue_saves w 0 (new_locals start restore) queue [] (inl refl)

    -- A pass never rolls back a statement that succeeded, whatever fails, and leaves none
    -- uncommitted.
    pub discarded-pass :
        (discarded (pass w start restore queue).calls [] ≡ [])
        × (pending (pass w start restore queue).calls [] ≡ [])
    unfolding pass
    discarded-pass =
        let after = commit_after_lem loop.locals (pending loop.calls []) loop_saves.1 in
        (
          rw (discarded-append loop.calls (commit_after loop.locals) [], loop_saves.0) after.0,
          rw (pending-append loop.calls (commit_after loop.locals) []) after.1,
        )

    -- Where gettimeofday does not fail: a pass takes a first part out of the queue and leaves the
    -- rest in it. The statements that succeed are exactly those of that part that the database
    -- takes, in the order of the queue, and the connection is told to run each complete one.
    pub done-pass :
        ((i : ℕ) → w.now i ≢ none)
        → (done : List (SqlRequest P)) × (queue ≡ done ++ (pass w start restore queue).left)
          × (succeeded_in (pass w start restore queue).calls ≡ taken w 0 done)
          × IsWithin (complete done) (tried_in (pass w start restore queue).calls)
    unfolding pass
    done-pass clock =
        let after = commit_after_lem loop.locals (pending loop.calls []) loop_saves.1 in
        let d = run_queue-IsDone w clock 0 (new_locals start restore) queue [] (inl refl) in
        (
          d.done,
          d.split,
          rw (succeeded_in-append loop.calls (commit_after loop.locals), after.3)
              (append-nil _ ∙ d.succeeds),
          rw (tried_in-append loop.calls (commit_after loop.locals), after.4)
              (subst (IsWithin (complete d.done)) (sym (append-nil _)) d.tries),
        )

    dropped-pass :
        ((i : ℕ) → w.restored i ≡ pos 0) → dropped (pass w start restore queue).calls [] ≡ []
    unfolding pass
    dropped-pass works =
        let after = commit_after_lem loop.locals (pending loop.calls []) loop_saves.1 in
        let none_lost =
          run_queue-dropped w works 0 (new_locals start restore) queue [] (inl refl) in
        rw (dropped-append loop.calls (commit_after loop.locals) [], none_lost) after.2

    -- Where gettimeofday does not fail, and the connection works whenever a statement has failed,
    -- a pass empties the queue, and the database keeps each statement that succeeded.
    pub left-pass :
        ((i : ℕ) → w.now i ≢ none)
        → ((i : ℕ) → w.restored i ≡ pos 0)
        → ((pass w start restore queue).left ≡ [])
          × (stored (pass w start restore queue).calls [] ≡ taken w 0 queue)
    unfolding pass
    left-pass clock works =
        let (done, split, succeeds, _) = done-pass clock in
        let empty = run_queue-left w clock works 0 (new_locals start restore) queue [] (inl refl) in
        let all : done ≡ queue =
          sym (append-nil done) ∙ ap (λ x. done ++ x) (sym empty) ∙ sym split in
        let (discards, pends) = discarded-pass in
        (
          empty,
          Interleaves-first (
                subst
                  (λ x.
                    Interleaves (stored (pass w start restore queue).calls []) x
                      (succeeded_in (pass w start restore queue).calls))
                  (dropped-pass works)
                  (Interleaves-calls (pass w start restore queue).calls [] discards pends))
              ∙ succeeds
              ∙ ap (taken w 0) all,
        )
