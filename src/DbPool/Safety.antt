-- ===== src/DbPool/Safety.antt =====
-- The pool of src/pcrf_db_pool.cpp under every interleaving of pcrf_db_pool_get and
-- pcrf_db_pool_rel, each connection being released by the thread that has it.
use pcrf.Common.{
  ℕ, zero, suc, ◌+◌, ◌≤◌, ◌≡◌, ◌≢◌, refl, Bool, true, false, none, some, List, ◌∷◌, ◌++◌, ◌==◌,
  arith, Option-cases, Bool-cases, inl, inr,
}
use pcrf.Common.Lists.{length}
use pcrf.DbPool.{
  Pool, Phase, outside, scanning, holding, posting, not_found, Step, wait, timeout, try_lock,
  unlock, post, Reachable, start, step, try_entry, run_loop, unlock_entry, lock_of, set_lock, init,
  pool_size, all_outside,
}
use pcrf.DbPool.Slots.{
  free_from, scans_from, scanners, posts, posters, holds, holders, locks, scanners-append,
  posters-append, holders-append, free_from-set_lock-true, free_from-set_lock-false,
  free_from-locked, free_from-none, lock_of-set_lock, lock_of-past, free_from-all_free,
  locks-all_free, all_outside-idle, scanners-suc, locks-some-true,
}

-- The semaphore and the threads that have taken or still owe a unit of it make up the free
-- entries; from each place on there is a free entry for each thread that looks there or later; an
-- entry is locked exactly where one thread has its connection.
pub record IsSafe (p : Pool) (ts : List Phase) : Type 0 where
  pub units : p.sem + posters ts + scanners 0 ts ≡ free_from 0 p.locked
  pub room : (q : ℕ) → scanners q ts ≤ free_from q p.locked
  pub owners : (i : ℕ) → holders i ts ≡ locks (lock_of i p.locked)

module _ (xs ys : List Phase) where
  -- What the other threads and the one that moves make up.
  abbrev Sums : Phase → Type 0
  Sums a =
      ((q : ℕ) → scanners q (xs ++ a ∷ ys) ≡ scanners q xs + (scans_from q a + scanners q ys))
      × (posters (xs ++ a ∷ ys) ≡ posters xs + (posts a + posters ys))
      × ((i : ℕ) → holders i (xs ++ a ∷ ys) ≡ holders i xs + (holds i a + holders i ys))

  sums : (a : Phase) → Sums a
  unfolding scanners posters holders
  sums a = (
    λ q. scanners-append q xs (a ∷ ys),
    posters-append xs (a ∷ ys),
    λ i. holders-append i xs (a ∷ ys),
  )

  IsSafe-wait :
      (n : ℕ) (l : List Bool)
      → IsSafe (record { sem = suc n; locked = l }) (xs ++ outside ∷ ys)
      → IsSafe (record { sem = n; locked = l }) (xs ++ scanning 0 ∷ ys)
  unfolding scans_from posts holds
  IsSafe-wait n l h =
      let (s, p, o) = sums outside in
      let (s', p', o') = sums (scanning 0) in
      record {
        units = ground (arith, h.units, s 0, p, s' 0, p');
        room = λ q. ground (arith, h.units, h.room q, s q, s' q, s 0, p, s' 0, p');
        owners = λ i. ground (arith, h.owners i, o i, o' i);
      }

  IsSafe-post :
      (n : ℕ) (l : List Bool)
      → IsSafe (record { sem = n; locked = l }) (xs ++ posting ∷ ys)
      → IsSafe (record { sem = suc n; locked = l }) (xs ++ outside ∷ ys)
  unfolding scans_from posts holds
  IsSafe-post n l h =
      let (s, p, o) = sums posting in
      let (s', p', o') = sums outside in
      record {
        units = ground (arith, h.units, s 0, p, s' 0, p');
        room = λ q. ground (arith, h.room q, s q, s' q);
        owners = λ i. ground (arith, h.owners i, o i, o' i);
      }

  -- An entry that a thread has the connection of is locked.
  locked-holding :
      (i : ℕ) (p : Pool) → IsSafe p (xs ++ holding i ∷ ys) → lock_of i p.locked ≡ some true
  unfolding holds
  locked-holding i p h =
      let (_, _, o) = sums (holding i) in
      locks-some-true (lock_of i p.locked) (ground (arith, h.owners i, o i))

  IsSafe-unlock :
      (i : ℕ) (p : Pool)
      → IsSafe p (xs ++ holding i ∷ ys)
      → IsSafe (unlock_entry i p) (xs ++ posting ∷ ys)
  unfolding scans_from posts holds unlock_entry
  IsSafe-unlock i p h =
      let locked = locked-holding i p h in
      let (s, t, o) = sums (holding i) in
      let (s', t', o') = sums posting in
      record {
        units =
            ground (arith, h.units, s 0, t, s' 0, t', free_from-set_lock-false 0 i p.locked locked);
        room =
            λ q. ground (arith, h.room q, s q, s' q, free_from-set_lock-false q i p.locked locked);
        owners = λ j.
            ground (
              arith,
              h.owners j,
              o j,
              o' j,
              locked,
              lock_of-set_lock i j true false p.locked locked,
            );
      }

  -- A thread that looks at an entry has a free one there or later.
  entry-scanning : (i : ℕ) (p : Pool) → IsSafe p (xs ++ scanning i ∷ ys) → lock_of i p.locked ≢ none
  unfolding scans_from
  entry-scanning i p h e =
      let (s, _, _) = sums (scanning i) in
      ground (arith, h.room i, s i, free_from-none i p.locked e)

  IsSafe-pass :
      (i : ℕ) (p : Pool)
      → lock_of i p.locked ≡ some true
      → IsSafe p (xs ++ scanning i ∷ ys)
      → IsSafe p (xs ++ scanning (suc i) ∷ ys)
  unfolding scans_from posts holds
  IsSafe-pass i p e h =
      let (s, t, o) = sums (scanning i) in
      let (s', t', o') = sums (scanning (suc i)) in
      record {
        units = ground (arith, h.units, s 0, t, s' 0, t');
        room = λ q. elim (Bool-cases (q == suc i)) [
          | inl here ↦ ground (
            arith,
            here,
            h.room i,
            s i,
            s' (suc i),
            free_from-locked i p.locked e,
            scanners-suc i xs,
            scanners-suc i ys,
          )
          | inr there ↦ ground (arith, there, h.room q, s q, s' q)
        ];
        owners = λ j. ground (arith, h.owners j, o j, o' j);
      }

  IsSafe-take :
      (i : ℕ) (p : Pool)
      → lock_of i p.locked ≡ some false
      → IsSafe p (xs ++ scanning i ∷ ys)
      → IsSafe (record p { locked = set_lock i true p.locked }) (xs ++ holding i ∷ ys)
  unfolding scans_from posts holds
  IsSafe-take i p e h =
      let (s, t, o) = sums (scanning i) in
      let (s', t', o') = sums (holding i) in
      record {
        units = ground (arith, h.units, s 0, t, s' 0, t', free_from-set_lock-true 0 i p.locked e);
        room = λ q. ground (arith, h.room q, s q, s' q, free_from-set_lock-true q i p.locked e);
        owners = λ j.
            ground (arith, h.owners j, o j, o' j, e, lock_of-set_lock i j false true p.locked e);
      }

  IsSafe-try_lock :
      (i : ℕ) (p : Pool)
      → IsSafe p (xs ++ scanning i ∷ ys)
      → IsSafe (try_entry i p).0 (xs ++ (try_entry i p).1 ∷ ys)
  unfolding try_entry
  IsSafe-try_lock i p h = elim (Option-cases (lock_of i p.locked)) [
    | inl e ↦ elim (entry-scanning i p h e) [ ]
    | inr (true, e) ↦ rw (try_entry, e) (IsSafe-pass i p e h)
    | inr (false, e) ↦ rw (try_entry, e) (IsSafe-take i p e h)
  ]

  IsSafe-Step :
      {p q : Pool} {a b : Phase} → Step p a q b → IsSafe p (xs ++ a ∷ ys) → IsSafe q (xs ++ b ∷ ys)
  IsSafe-Step (wait {n} {l}) h = IsSafe-wait n l h
  IsSafe-Step timeout h = h
  IsSafe-Step (try_lock {p} {i}) h = IsSafe-try_lock i p h
  IsSafe-Step (unlock {p} {i}) h = IsSafe-unlock i p h
  IsSafe-Step (post {n} {l}) h = IsSafe-post n l h

IsSafe-init : (size threads : ℕ) → IsSafe (init size) (all_outside threads)
unfolding init
IsSafe-init size threads = record {
  units =
      let (a, b, _) = all_outside-idle threads 0 in
      omega (arith, a, b, free_from-all_free (pool_size size));
  room = λ q. let (a, _, _) = all_outside-idle threads q in omega (arith, a);
  owners = λ i.
      let (_, _, c) = all_outside-idle threads i in
      omega (arith, c, locks-all_free i (pool_size size));
}

-- Whatever the pool comes to by the steps of any threads: the semaphore, the threads that look
-- for an entry and those about to post make up the free entries; from each place on there are
-- as many free entries as threads that look there or later; and an entry is locked exactly where
-- one thread has its connection, so no two threads have the same one.
pub Reachable-IsSafe :
    (size threads : ℕ) (p : Pool) (ts : List Phase) → Reachable size threads p ts → IsSafe p ts
Reachable-IsSafe size threads p ts start = IsSafe-init size threads
Reachable-IsSafe size threads _ _ (step {p} {q} {a} {b} before after r s) =
    IsSafe-Step before after s (Reachable-IsSafe size threads p (before ++ a ∷ after) r)

try_entry-not_found : (i : ℕ) (p : Pool) → lock_of i p.locked ≢ none → (try_entry i p).1 ≢ not_found
unfolding try_entry
try_entry-not_found i p listed e = elim (Option-cases (lock_of i p.locked)) [
  | inl missing ↦ listed missing
  | inr (true, locked) ↦ ground (arith, e, locked)
  | inr (false, free) ↦ ground (arith, e, free)
]

-- A thread that is in the loop of pcrf_db_pool_get never comes to the end of the list, whatever
-- the other threads do: the entry that it looks at exists, so the code -2222 is not returned.
try_entry-found :
    (size threads i : ℕ) (p : Pool) (before after : List Phase)
    → Reachable size threads p (before ++ scanning i ∷ after)
    → (try_entry i p).1 ≢ not_found
try_entry-found size threads i p before after r = try_entry-not_found i p (
    entry-scanning before after i p
      (Reachable-IsSafe size threads p (before ++ scanning i ∷ after) r))

run_loop-free :
    (n i : ℕ) (p : Pool)
    → length p.locked ≤ n + i
    → 1 ≤ free_from i p.locked
    → (j : ℕ) × ((run_loop n i p).1 ≡ holding j) × (lock_of j p.locked ≡ some false)
unfolding run_loop try_entry
run_loop-free zero i p long free =
    ground (arith, free_from-none i p.locked (lock_of-past i p.locked (omega arith)))
run_loop-free (suc n) i p long free = elim (Option-cases (lock_of i p.locked)) [
  | inl missing ↦ ground (arith, free_from-none i p.locked missing)
  | inr (true, locked) ↦
      let (j, held, unlocked) =
        run_loop-free n (suc i) p (omega arith)
          (omega (arith, free_from-locked i p.locked locked)) in
      (j, rw (run_loop, locked) held, unlocked)
  | inr (false, unlocked) ↦ (i, rw (run_loop, unlocked) refl, unlocked)
]

-- In any state that the pool can come to, a thread that is in the loop of pcrf_db_pool_get and is
-- not interrupted leaves it with the connection of an entry that was free, within as many turns
-- as the list has entries.
pub run_loop-holding :
    (size threads i : ℕ) (p : Pool) (before after : List Phase)
    → Reachable size threads p (before ++ scanning i ∷ after)
    → (j : ℕ) × ((run_loop (length p.locked) i p).1 ≡ holding j) × (lock_of j p.locked ≡ some false)
unfolding scans_from
run_loop-holding size threads i p before after r =
    let h = Reachable-IsSafe size threads p (before ++ scanning i ∷ after) r in
    let (s, _, _) = sums before after (scanning i) in
    run_loop-free (length p.locked) i p (omega arith) (ground (arith, h.room i, s i))
