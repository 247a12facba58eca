-- ===== src/SqlQueue/Accounts.antt =====
-- What becomes of the statements that succeed on a connection of src/pcrf_sql_queue.cpp: the
-- accounts of the database over the calls.
use mathlib.Core.List.{append-nil, append_assoc}
use pcrf.Common.{arith, ◌≡◌, refl, sym, ap, ◌∙◌, List, [], ◌∷◌, ◌++◌, subst}
use pcrf.SqlQueue.{SqlRequest}
use pcrf.SqlQueue.Pass.{Call, succeeded, failed, commit, rollback, lost}
use pcrf.SqlQueue.Commits.{pending, stored, discarded, dropped, succeeded_in}
use pcrf.SqlQueue.Order.{IsWithin, ends, kept, skipped}

module _ {A : Type 0} where
  pub IsWithin-append :
      {xs ys us vs : List A} → IsWithin xs ys → IsWithin us vs → IsWithin (xs ++ us) (ys ++ vs)
  IsWithin-append ends h = h
  IsWithin-append (kept x g) h = kept x (IsWithin-append g h)
  IsWithin-append (skipped y g) h = skipped y (IsWithin-append g h)

  pub IsWithin-same : (xs : List A) → IsWithin xs xs
  IsWithin-same [] = ends
  IsWithin-same (x ∷ xs) = kept x (IsWithin-same xs)

  pub IsWithin-none : (xs : List A) → IsWithin [] xs
  IsWithin-none [] = ends
  IsWithin-none (x ∷ xs) = skipped x (IsWithin-none xs)

  -- Each element of the third list stands in exactly one of the first two, in its order.
  pub data Interleaves : List A → List A → List A → Type 0 where
    both_end : Interleaves [] [] []
    first : (x : A) {xs ys zs : List A} → Interleaves xs ys zs → Interleaves (x ∷ xs) ys (x ∷ zs)
    second : (y : A) {xs ys zs : List A} → Interleaves xs ys zs → Interleaves xs (y ∷ ys) (y ∷ zs)

  Interleaves-first_all : {xs ys zs : List A} → Interleaves xs ys zs → ys ≡ [] → xs ≡ zs
  Interleaves-first_all both_end e = refl
  Interleaves-first_all (first x h) e = ap (λ l. x ∷ l) (Interleaves-first_all h e)
  Interleaves-first_all (second y h) e = ground (arith, e)

  pub Interleaves-first : {xs zs : List A} → Interleaves xs [] zs → xs ≡ zs
  Interleaves-first h = Interleaves-first_all h refl

  all_first :
      (p : List A) {xs ys zs : List A} → Interleaves xs ys zs → Interleaves (p ++ xs) ys (p ++ zs)
  all_first [] h = h
  all_first (x ∷ p) h = first x (all_first p h)

  all_second :
      (p : List A) {xs ys zs : List A} → Interleaves xs ys zs → Interleaves xs (p ++ ys) (p ++ zs)
  all_second [] h = h
  all_second (y ∷ p) h = second y (all_second p h)

  left_nil : (xs ys : List A) → xs ++ ys ≡ [] → (xs ≡ []) × (ys ≡ [])
  left_nil [] ys e = (refl, e)
  left_nil (x ∷ xs) ys e = ground (arith, e)

-- Where nothing is rolled back and nothing is pending at the end, each statement that succeeds is
-- kept or lost with a session.
pub Interleaves-calls :
    {P : Type 0} (cs : List (Call P)) (p : List (SqlRequest P))
    → discarded cs p ≡ []
    → pending cs p ≡ []
    → Interleaves (stored cs p) (dropped cs p) (p ++ succeeded_in cs)
unfolding discarded pending stored dropped succeeded_in
Interleaves-calls [] p d e = subst (Interleaves [] []) (sym (append-nil p ∙ e)) both_end
Interleaves-calls (succeeded r ∷ cs) p d e =
    subst (Interleaves (stored cs (p ++ (r ∷ []))) (dropped cs (p ++ (r ∷ []))))
      (append_assoc p (r ∷ []) (succeeded_in cs)) (Interleaves-calls cs (p ++ (r ∷ [])) d e)
Interleaves-calls (failed r ∷ cs) p d e = Interleaves-calls cs p d e
Interleaves-calls (commit ∷ cs) p d e = all_first p (Interleaves-calls cs [] d e)
Interleaves-calls (rollback ∷ cs) p d e =
    let (none_before, none_after) = left_nil p (discarded cs []) d in
    subst (λ q. Interleaves (stored cs []) (dropped cs []) (q ++ succeeded_in cs)) (sym none_before)
      (Interleaves-calls cs [] none_after e)
Interleaves-calls (lost ∷ cs) p d e = all_second p (Interleaves-calls cs [] d e)
