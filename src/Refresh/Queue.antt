-- ===== src/Refresh/Queue.antt =====
-- The local queue of src/pcrf_client.cpp: its order, and what is taken from it.
use pcrf.Common.{
  ℕ, ◌≤◌, ◌<◌, ◌≡◌, refl, false, List, [], ◌∷◌, ◌++◌, ◌==◌, leb, if◌then◌else◌, arith, Bool-cases,
  inl, inr,
}
use pcrf.Refresh.{RefQueue, LocalQueue, queue_insert, load_local_queue}

-- No entry is earlier than `u`.
abbrev NotBefore : ℕ → LocalQueue → Type 0
NotBefore u [] = Unit {0}
NotBefore u ((v, q) ∷ l) = (u ≤ v) × NotBefore u l

abbrev IsSorted : LocalQueue → Type 0
IsSorted [] = Unit {0}
IsSorted ((u, q) ∷ l) = NotBefore u l × IsSorted l

-- The records that are due, those that are not, and those of one time.
unfoldable due : ℕ → LocalQueue → List RefQueue
due now [] = []
due now ((u, q) ∷ l) = let rest = due now l in if leb u now then q ∷ rest else rest

unfoldable pub later : ℕ → LocalQueue → LocalQueue
later now [] = []
later now ((u, q) ∷ l) = let rest = later now l in if leb u now then rest else (u, q) ∷ rest

unfoldable at_time : ℕ → LocalQueue → List RefQueue
at_time t [] = []
at_time t ((u, q) ∷ l) = let rest = at_time t l in if u == t then q ∷ rest else rest

NotBefore-queue_insert :
    (u t : ℕ) (r : RefQueue) (l : LocalQueue)
    → u ≤ t
    → NotBefore u l
    → NotBefore u (queue_insert t r l)
unfolding queue_insert
NotBefore-queue_insert u t r [] h n = (h, tt)
NotBefore-queue_insert u t r ((v, q) ∷ l) h n = elim (Bool-cases (leb v t)) [
  | inl before ↦ rw before (n.0, NotBefore-queue_insert u t r l h n.1)
  | inr after ↦ rw after (h, n)
]

NotBefore-trans : (u v : ℕ) (l : LocalQueue) → u ≤ v → NotBefore v l → NotBefore u l
NotBefore-trans u v [] h n = tt
NotBefore-trans u v ((w, q) ∷ l) h n = (omega (arith, n.0), NotBefore-trans u v l h n.1)

-- pcrf_local_refresh_queue_add keeps the queue in the order of time.
IsSorted-queue_insert :
    (t : ℕ) (r : RefQueue) (l : LocalQueue) → IsSorted l → IsSorted (queue_insert t r l)
unfolding queue_insert
IsSorted-queue_insert t r [] h = (tt, tt)
IsSorted-queue_insert t r ((v, q) ∷ l) h = elim (Bool-cases (leb v t)) [
  | inl before ↦
      rw before (NotBefore-queue_insert v t r l (ground arith) h.0, IsSorted-queue_insert t r l h.1)
  | inr after ↦ rw after ((ground arith, NotBefore-trans t v l (ground arith) h.0), h)
]

at_time_none : (t v : ℕ) (l : LocalQueue) → t < v → NotBefore v l → at_time t l ≡ []
unfolding at_time
at_time_none t v [] h n = refl
at_time_none t v ((w, q) ∷ l) h n = ground (arith, at_time_none t v l h n.1, n.0)

-- A new record comes after those of the same time, and the records of other times are as they
-- were.
at_time-queue_insert :
    (t u : ℕ) (r : RefQueue) (l : LocalQueue)
    → IsSorted l
    → at_time u (queue_insert t r l) ≡ (if t == u then at_time u l ++ r ∷ [] else at_time u l)
unfolding at_time queue_insert
at_time-queue_insert t u r [] h = ground arith
at_time-queue_insert t u r ((v, q) ∷ l) h = elim (Bool-cases (leb v t)) [
  | inl before ↦ rw before (ground (arith, at_time-queue_insert t u r l h.1))
  | inr after ↦ rw after (elim (Bool-cases (t == u)) [
    | inl same ↦ ground (arith, same, after, at_time_none t v l (ground arith) h.0)
    | inr other ↦ ground (arith, other)
  ])
]

later_none :
    (now u : ℕ) (l : LocalQueue)
    → leb u now ≡ false
    → NotBefore u l
    → (due now l ≡ []) × (later now l ≡ l)
unfolding due later
later_none now u [] h n = (refl, refl)
later_none now u ((v, q) ∷ l) h n =
    let (d, e) = later_none now u l h n.1 in (ground (arith, d, n.0), ground (arith, e, n.0))

-- From a queue in the order of time, the load takes all records that are due, in their order, and
-- leaves all the others.
load_local_queue-due :
    (now : ℕ) (l : LocalQueue) → IsSorted l → load_local_queue now l ≡ (due now l, later now l)
unfolding load_local_queue due later
load_local_queue-due now [] h = refl
load_local_queue-due now ((u, q) ∷ l) h = elim (Bool-cases (leb u now)) [
  | inl now_due ↦ ground (arith, now_due, load_local_queue-due now l h.1)
  | inr not_due ↦
      ground
        (arith, not_due, (later_none now u l not_due h.0).0, (later_none now u l not_due h.0).1)
]
