-- ===== src/DbPool/Slots.antt =====
-- Free entries of the pool of src/pcrf_db_pool.cpp, and the threads that look for one.
use pcrf.Common.{
  ℕ, zero, suc, ◌+◌, ◌≤◌, ◌≡◌, refl, Bool, true, false, Option, none, some, List, [], ◌∷◌, ◌++◌,
  leb, ◌==◌, if◌then◌else◌, arith,
}
use pcrf.Common.Lists.{length}
use pcrf.DbPool.{
  Phase, outside, scanning, holding, posting, not_found, lock_of, set_lock, all_free, all_outside,
}

-- The free entries from a place on.
unfoldable pub free_from : ℕ → List Bool → ℕ
free_from q [] = 0
free_from zero (b ∷ bs) = (if b then 0 else 1) + free_from zero bs
free_from (suc q) (b ∷ bs) = free_from q bs

-- How far a thread counts as one that looks at entries from a place on.
unfoldable pub scans_from : ℕ → Phase → ℕ
scans_from q (scanning i) = if leb q i then 1 else 0
scans_from q _ = 0

unfoldable pub scanners : ℕ → List Phase → ℕ
unfolding scans_from
scanners q [] = 0
scanners q (t ∷ ts) = scans_from q t + scanners q ts

-- Threads that have unlocked an entry and not posted yet.
unfoldable pub posts : Phase → ℕ
posts posting = 1
posts _ = 0

unfoldable pub posters : List Phase → ℕ
unfolding posts
posters [] = 0
posters (t ∷ ts) = posts t + posters ts

-- Threads that have the connection of an entry.
unfoldable pub holds : ℕ → Phase → ℕ
holds i (holding j) = if i == j then 1 else 0
holds i _ = 0

unfoldable pub holders : ℕ → List Phase → ℕ
unfolding holds
holders i [] = 0
holders i (t ∷ ts) = holds i t + holders i ts

abbrev pub locks : Option Bool → ℕ
locks (some true) = 1
locks _ = 0

pub scanners-append :
    (q : ℕ) (xs ys : List Phase) → scanners q (xs ++ ys) ≡ scanners q xs + scanners q ys
unfolding scanners
scanners-append q [] ys = omega arith
scanners-append q (x ∷ xs) ys = omega (arith, scanners-append q xs ys)

pub posters-append : (xs ys : List Phase) → posters (xs ++ ys) ≡ posters xs + posters ys
unfolding posters
posters-append [] ys = omega arith
posters-append (x ∷ xs) ys = omega (arith, posters-append xs ys)

pub holders-append :
    (i : ℕ) (xs ys : List Phase) → holders i (xs ++ ys) ≡ holders i xs + holders i ys
unfolding holders
holders-append i [] ys = omega arith
holders-append i (x ∷ xs) ys = omega (arith, holders-append i xs ys)

pub free_from-set_lock-true :
    (q i : ℕ) (l : List Bool)
    → lock_of i l ≡ some false
    → free_from q (set_lock i true l) + (if leb q i then 1 else 0) ≡ free_from q l
unfolding free_from set_lock lock_of
free_from-set_lock-true q i [] h = ground arith
free_from-set_lock-true zero zero (b ∷ bs) h = ground arith
free_from-set_lock-true zero (suc i) (b ∷ bs) h =
    ground (arith, free_from-set_lock-true zero i bs h)
free_from-set_lock-true (suc q) zero (b ∷ bs) h = ground arith
free_from-set_lock-true (suc q) (suc i) (b ∷ bs) h =
    ground (arith, free_from-set_lock-true q i bs h)

pub free_from-set_lock-false :
    (q i : ℕ) (l : List Bool)
    → lock_of i l ≡ some true
    → free_from q (set_lock i false l) ≡ free_from q l + (if leb q i then 1 else 0)
unfolding free_from set_lock lock_of
free_from-set_lock-false q i [] h = ground arith
free_from-set_lock-false zero zero (b ∷ bs) h = ground arith
free_from-set_lock-false zero (suc i) (b ∷ bs) h =
    ground (arith, free_from-set_lock-false zero i bs h)
free_from-set_lock-false (suc q) zero (b ∷ bs) h = ground arith
free_from-set_lock-false (suc q) (suc i) (b ∷ bs) h =
    ground (arith, free_from-set_lock-false q i bs h)

-- A locked entry is not among the free ones, and past the last entry there are none.
pub free_from-locked :
    (q : ℕ) (l : List Bool) → lock_of q l ≡ some true → free_from (suc q) l ≡ free_from q l
unfolding free_from lock_of
free_from-locked q [] h = ground arith
free_from-locked zero (b ∷ bs) h = ground arith
free_from-locked (suc q) (b ∷ bs) h = free_from-locked q bs h

pub free_from-none : (q : ℕ) (l : List Bool) → lock_of q l ≡ none → free_from q l ≡ 0
unfolding free_from lock_of
free_from-none q [] h = refl
free_from-none zero (b ∷ bs) h = ground arith
free_from-none (suc q) (b ∷ bs) h = free_from-none q bs h

pub lock_of-set_lock :
    (i j : ℕ) (b c : Bool) (l : List Bool)
    → lock_of i l ≡ some b
    → lock_of j (set_lock i c l) ≡ (if i == j then some c else lock_of j l)
unfolding set_lock lock_of
lock_of-set_lock i j b c [] h = ground arith
lock_of-set_lock zero zero b c (x ∷ l) h = ground arith
lock_of-set_lock zero (suc j) b c (x ∷ l) h = ground arith
lock_of-set_lock (suc i) zero b c (x ∷ l) h = ground arith
lock_of-set_lock (suc i) (suc j) b c (x ∷ l) h = ground (arith, lock_of-set_lock i j b c l h)

pub free_from-all_free : (n : ℕ) → free_from 0 (all_free n) ≡ n
unfolding free_from all_free
free_from-all_free zero = refl
free_from-all_free (suc n) = omega (arith, free_from-all_free n)

pub locks-all_free : (i n : ℕ) → locks (lock_of i (all_free n)) ≡ 0
unfolding lock_of all_free
locks-all_free i zero = refl
locks-all_free zero (suc n) = refl
locks-all_free (suc i) (suc n) = locks-all_free i n

pub all_outside-idle :
    (n q : ℕ)
    → (scanners q (all_outside n) ≡ 0)
      × (posters (all_outside n) ≡ 0)
      × (holders q (all_outside n) ≡ 0)
unfolding scanners posters holders all_outside
all_outside-idle zero q = (refl, refl, refl)
all_outside-idle (suc n) q =
    let (a, b, c) = all_outside-idle n q in (omega (arith, a), omega (arith, b), omega (arith, c))

pub scanners-suc : (q : ℕ) (ts : List Phase) → scanners (suc q) ts ≤ scanners q ts
unfolding scanners scans_from
scanners-suc q [] = omega arith
scanners-suc q (scanning i ∷ ts) = ground (arith, scanners-suc q ts)
scanners-suc q (outside ∷ ts) = omega (arith, scanners-suc q ts)
scanners-suc q (holding i ∷ ts) = omega (arith, scanners-suc q ts)
scanners-suc q (posting ∷ ts) = omega (arith, scanners-suc q ts)
scanners-suc q (not_found ∷ ts) = omega (arith, scanners-suc q ts)

pub locks-some-true : (o : Option Bool) → 1 ≤ locks o → o ≡ some true
locks-some-true none h = ground arith
locks-some-true (some true) h = refl
locks-some-true (some false) h = ground arith

pub lock_of-past : (i : ℕ) (l : List Bool) → length l ≤ i → lock_of i l ≡ none
unfolding lock_of
lock_of-past i [] h = refl
lock_of-past zero (b ∷ bs) h = ground arith
lock_of-past (suc i) (b ∷ bs) h = lock_of-past i bs (omega arith)
