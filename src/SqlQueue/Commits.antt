-- ===== src/SqlQueue/Commits.antt =====
-- What a pass of pcrf_sql_queue_oper of src/pcrf_sql_queue.cpp leaves in the database. A commit
-- keeps the statements since the last one, a rollback discards them, and a lost session takes them
-- with it.
use mathlib.Core.List.{append_assoc}
use pcrf.Common.{
  ℕ, suc, ◌≡◌, ◌≢◌, ◌⊎◌, refl, ap, Bool, true, false, Option, none, some, List, [], ◌∷◌, ◌++◌,
  if◌then◌else◌, arith,
}
use pcrf.Common.Int.{ℤ, pos}
use pcrf.SqlQueue.{SqlRequest}
use pcrf.SqlQueue.Pass.{Time, Call, succeeded, failed, commit, rollback, lost, World, Locals, serve}

module _ {P : Type 0} where
  -- The statements that neither a commit nor a rollback has ended, `p` of them from before.
  unfoldable pub pending : List (Call P) → List (SqlRequest P) → List (SqlRequest P)
  pending [] p = p
  pending (succeeded r ∷ cs) p = pending cs (p ++ (r ∷ []))
  pending (failed r ∷ cs) p = pending cs p
  pending (commit ∷ cs) p = pending cs []
  pending (rollback ∷ cs) p = pending cs []
  pending (lost ∷ cs) p = pending cs []

  -- The statements that commits have kept, in the order of their execution.
  unfoldable pub stored : List (Call P) → List (SqlRequest P) → List (SqlRequest P)
  stored [] p = []
  stored (succeeded r ∷ cs) p = stored cs (p ++ (r ∷ []))
  stored (failed r ∷ cs) p = stored cs p
  stored (commit ∷ cs) p = p ++ stored cs []
  stored (rollback ∷ cs) p = stored cs []
  stored (lost ∷ cs) p = stored cs []

  -- The statements that rollbacks have discarded.
  unfoldable pub discarded : List (Call P) → List (SqlRequest P) → List (SqlRequest P)
  discarded [] p = []
  discarded (succeeded r ∷ cs) p = discarded cs (p ++ (r ∷ []))
  discarded (failed r ∷ cs) p = discarded cs p
  discarded (commit ∷ cs) p = discarded cs []
  discarded (rollback ∷ cs) p = p ++ discarded cs []
  discarded (lost ∷ cs) p = discarded cs []

  -- The statements that were lost with a session.
  unfoldable pub dropped : List (Call P) → List (SqlRequest P) → List (SqlRequest P)
  dropped [] p = []
  dropped (succeeded r ∷ cs) p = dropped cs (p ++ (r ∷ []))
  dropped (failed r ∷ cs) p = dropped cs p
  dropped (commit ∷ cs) p = dropped cs []
  dropped (rollback ∷ cs) p = dropped cs []
  dropped (lost ∷ cs) p = p ++ dropped cs []

  -- The requests whose statement succeeded, and those that the connection was told to run.
  unfoldable pub succeeded_in : List (Call P) → List (SqlRequest P)
  succeeded_in [] = []
  succeeded_in (succeeded r ∷ cs) = r ∷ succeeded_in cs
  succeeded_in (failed r ∷ cs) = succeeded_in cs
  succeeded_in (commit ∷ cs) = succeeded_in cs
  succeeded_in (rollback ∷ cs) = succeeded_in cs
  succeeded_in (lost ∷ cs) = succeeded_in cs

  unfoldable pub tried_in : List (Call P) → List (SqlRequest P)
  tried_in [] = []
  tried_in (succeeded r ∷ cs) = r ∷ tried_in cs
  tried_in (failed r ∷ cs) = r ∷ tried_in cs
  tried_in (commit ∷ cs) = tried_in cs
  tried_in (rollback ∷ cs) = tried_in cs
  tried_in (lost ∷ cs) = tried_in cs

  pub pending-append :
      (cs ds : List (Call P)) (p : List (SqlRequest P))
      → pending (cs ++ ds) p ≡ pending ds (pending cs p)
  unfolding pending
  pending-append [] ds p = refl
  pending-append (succeeded r ∷ cs) ds p = pending-append cs ds _
  pending-append (failed r ∷ cs) ds p = pending-append cs ds p
  pending-append (commit ∷ cs) ds p = pending-append cs ds []
  pending-append (rollback ∷ cs) ds p = pending-append cs ds []
  pending-append (lost ∷ cs) ds p = pending-append cs ds []

  pub stored-append :
      (cs ds : List (Call P)) (p : List (SqlRequest P))
      → stored (cs ++ ds) p ≡ stored cs p ++ stored ds (pending cs p)
  unfolding pending stored
  stored-append [] ds p = refl
  stored-append (succeeded r ∷ cs) ds p = stored-append cs ds _
  stored-append (failed r ∷ cs) ds p = stored-append cs ds p
  stored-append (commit ∷ cs) ds p = simp (stored-append cs ds [], append_assoc)
  stored-append (rollback ∷ cs) ds p = stored-append cs ds []
  stored-append (lost ∷ cs) ds p = stored-append cs ds []

  pub discarded-append :
      (cs ds : List (Call P)) (p : List (SqlRequest P))
      → discarded (cs ++ ds) p ≡ discarded cs p ++ discarded ds (pending cs p)
  unfolding pending discarded
  discarded-append [] ds p = refl
  discarded-append (succeeded r ∷ cs) ds p = discarded-append cs ds _
  discarded-append (failed r ∷ cs) ds p = discarded-append cs ds p
  discarded-append (commit ∷ cs) ds p = discarded-append cs ds []
  discarded-append (rollback ∷ cs) ds p = simp (discarded-append cs ds [], append_assoc)
  discarded-append (lost ∷ cs) ds p = discarded-append cs ds []

  pub dropped-append :
      (cs ds : List (Call P)) (p : List (SqlRequest P))
      → dropped (cs ++ ds) p ≡ dropped cs p ++ dropped ds (pending cs p)
  unfolding pending dropped
  dropped-append [] ds p = refl
  dropped-append (succeeded r ∷ cs) ds p = dropped-append cs ds _
  dropped-append (failed r ∷ cs) ds p = dropped-append cs ds p
  dropped-append (commit ∷ cs) ds p = dropped-append cs ds []
  dropped-append (rollback ∷ cs) ds p = dropped-append cs ds []
  dropped-append (lost ∷ cs) ds p = simp (dropped-append cs ds [], append_assoc)

  pub succeeded_in-append :
      (cs ds : List (Call P)) → succeeded_in (cs ++ ds) ≡ succeeded_in cs ++ succeeded_in ds
  unfolding succeeded_in
  succeeded_in-append [] ds = refl
  succeeded_in-append (succeeded r ∷ cs) ds = ap (λ x. r ∷ x) (succeeded_in-append cs ds)
  succeeded_in-append (failed r ∷ cs) ds = succeeded_in-append cs ds
  succeeded_in-append (commit ∷ cs) ds = succeeded_in-append cs ds
  succeeded_in-append (rollback ∷ cs) ds = succeeded_in-append cs ds
  succeeded_in-append (lost ∷ cs) ds = succeeded_in-append cs ds

  pub tried_in-append : (cs ds : List (Call P)) → tried_in (cs ++ ds) ≡ tried_in cs ++ tried_in ds
  unfolding tried_in
  tried_in-append [] ds = refl
  tried_in-append (succeeded r ∷ cs) ds = ap (λ x. r ∷ x) (tried_in-append cs ds)
  tried_in-append (failed r ∷ cs) ds = ap (λ x. r ∷ x) (tried_in-append cs ds)
  tried_in-append (commit ∷ cs) ds = tried_in-append cs ds
  tried_in-append (rollback ∷ cs) ds = tried_in-append cs ds
  tried_in-append (lost ∷ cs) ds = tried_in-append cs ds

  -- Whether a request has its statement and its parameters.
  unfoldable pub is_complete : SqlRequest P → Bool
  is_complete r = elim r.request [
    | none ↦ false
    | some _ ↦ elim r.param_list [ none ↦ false | some _ ↦ true ]
  ]

  unfoldable pub complete : List (SqlRequest P) → List (SqlRequest P)
  complete [] = []
  complete (r ∷ rs) = let rest = complete rs in if is_complete r then r ∷ rest else rest

  -- Whether the database takes a request: its pointers are not null and it does not throw.
  unfoldable pub is_taken : SqlRequest P → Option ℕ → Bool
  is_taken r exception = elim r.request [
    | none ↦ false
    | some _ ↦ elim r.param_list [
      | none ↦ false
      | some _ ↦ elim exception [ none ↦ true | some _ ↦ false ]
    ]
  ]

  -- Those of the requests that the database takes, the first with the number `i`.
  unfoldable pub taken : World → ℕ → List (SqlRequest P) → List (SqlRequest P)
  unfolding is_taken
  taken w i [] = []
  taken w i (r ∷ queue) =
      let rest = taken w (suc i) queue in if is_taken r (w.exception i) then r ∷ rest else rest

  -- Where statements are pending, the loop knows that it has to commit.
  abbrev pub Saved : Locals → List (SqlRequest P) → Type 0
  Saved l p = (p ≡ []) ⊎ (l.should_commit ≡ true)

  module _ (r : SqlRequest P) (exception : Option ℕ) (restored : ℤ) (now : Option Time) (l : Locals)
      (p : List (SqlRequest P)) (s : Saved l p) where
    pub discarded-serve : discarded (serve r exception restored now l).0 p ≡ []
    unfolding serve discarded
    discarded-serve = ground (arith)

    pub Saved-serve :
        Saved (serve r exception restored now l).1 (pending (serve r exception restored now l).0 p)
    unfolding serve pending
    Saved-serve = ground (arith)

    pub succeeded_in-serve :
        succeeded_in (serve r exception restored now l).0
        ≡ (if is_taken r exception then r ∷ [] else [])
    unfolding serve succeeded_in is_taken
    succeeded_in-serve = ground (arith)

    pub tried_in-serve :
        tried_in (serve r exception restored now l).0 ≡ (if is_complete r then r ∷ [] else [])
    unfolding serve tried_in is_complete
    tried_in-serve = ground (arith)

    pub dropped-serve : restored ≡ pos 0 → dropped (serve r exception restored now l).0 p ≡ []
    unfolding serve dropped
    dropped-serve works = ground (arith)

    -- A request that the loop stops at was not taken.
    pub stops-serve :
        now ≢ none → (serve r exception restored now l).2 ≡ false → is_taken r exception ≡ false
    unfolding serve is_taken
    stops-serve n h = ground (arith, n)

    pub goes_on-serve : now ≢ none → restored ≡ pos 0 → (serve r exception restored now l).2 ≡ true
    unfolding serve
    goes_on-serve n h = ground (arith, n)
