-- ===== src/DbPool.antt =====
-- The pool of connections to the database: pcrf_db_pool_get and pcrf_db_pool_rel of
-- src/pcrf_db_pool.cpp, with the steps of the threads that call them interleaved.
pub mod Slots
pub mod Safety
use pcrf.Common.{
  ℕ, zero, suc, ◌≡◌, Bool, true, false, Option, none, some, List, [], ◌∷◌, ◌++◌, ◌==◌,
  if◌then◌else◌,
}

-- g_tDBPoolSem, and m_mutexLock of each entry of the list at g_psoDBPoolHead: true where it is
-- locked. An entry is known by its place in the list.
pub record Pool : Type 0 where
  pub sem : ℕ
  pub locked : List Bool

unfoldable pub all_free : ℕ → List Bool
all_free zero = []
all_free (suc n) = false ∷ all_free n

-- The size of the pool: m_iDBPoolSize, or DB_POOL_SIZE_DEF where it is 0.
unfoldable pub pool_size : ℕ → ℕ
pool_size n = if n == 0 then 1 else n

-- pcrf_db_pool_init, where every connection is made.
unfoldable pub init : ℕ → Pool
unfolding all_free pool_size
init n = record { sem = pool_size n; locked = all_free (pool_size n) }

unfoldable pub lock_of : ℕ → List Bool → Option Bool
lock_of i [] = none
lock_of zero (b ∷ bs) = some b
lock_of (suc i) (b ∷ bs) = lock_of i bs

unfoldable pub set_lock : ℕ → Bool → List Bool → List Bool
set_lock i c [] = []
set_lock zero c (b ∷ bs) = c ∷ bs
set_lock (suc i) c (b ∷ bs) = b ∷ set_lock i c bs

-- Where a thread is: outside of the functions and without a connection; in the loop of
-- pcrf_db_pool_get, before the trylock of an entry; with the connection of an entry; in
-- pcrf_db_pool_rel, before sem_post; after pcrf_db_pool_get has returned -2222.
pub data Phase : Type 0 where
  outside : Phase
  scanning : ℕ → Phase
  holding : ℕ → Phase
  posting : Phase
  not_found : Phase

-- One turn of the loop of pcrf_db_pool_get: pthread_mutex_trylock of the entry.
unfoldable pub try_entry : ℕ → Pool → Pool × Phase
unfolding lock_of set_lock
try_entry i p = elim (lock_of i p.locked) [
  | none ↦ (p, not_found)
  | some true ↦ (p, scanning (suc i))
  | some false ↦ (record p { locked = set_lock i true p.locked }, holding i)
]

-- The loop of pcrf_db_pool_get, run by one thread without interruption, for at most `n` turns.
unfoldable pub run_loop : ℕ → ℕ → Pool → Pool × Phase
unfolding try_entry
run_loop zero i p = (p, scanning i)
run_loop (suc n) i p = elim (try_entry i p).1 [
  | scanning j ↦ run_loop n j p
  | done ↦ ((try_entry i p).0, done)
]

-- pthread_mutex_unlock of pcrf_db_pool_rel, for the entry whose connection the thread has.
unfoldable pub unlock_entry : ℕ → Pool → Pool
unfolding set_lock
unlock_entry i p = record p { locked = set_lock i false p.locked }

-- One step of one thread: what the pool and the phase become.
pub data Step : Pool → Phase → Pool → Phase → Type 0 where
  -- sem_timedwait has taken a unit.
  wait :
      {n : ℕ} {l : List Bool}
      → Step
          (record { sem = suc n; locked = l })
          outside
          (record { sem = n; locked = l })
          (scanning 0)
  -- sem_timedwait has timed out.
  timeout : {p : Pool} → Step p outside p outside
  try_lock : {p : Pool} {i : ℕ} → Step p (scanning i) (try_entry i p).0 (try_entry i p).1
  unlock : {p : Pool} {i : ℕ} → Step p (holding i) (unlock_entry i p) posting
  post :
      {n : ℕ} {l : List Bool}
      → Step (record { sem = n; locked = l }) posting (record { sem = suc n; locked = l }) outside

unfoldable pub all_outside : ℕ → List Phase
all_outside zero = []
all_outside (suc n) = outside ∷ all_outside n

-- What a pool of `size` connections and `threads` threads can come to, in any interleaving.
pub data Reachable (size threads : ℕ) : Pool → List Phase → Type 0 where
  start : Reachable size threads (init size) (all_outside threads)
  step :
      {p q : Pool} {a b : Phase} (before after : List Phase)
      → Reachable size threads p (before ++ a ∷ after)
      → Step p a q b
      → Reachable size threads q (before ++ b ∷ after)
