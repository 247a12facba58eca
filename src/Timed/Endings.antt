-- ===== src/Timed/Endings.antt =====
-- How the two threads of src/data_proc/pcrf_timed_oper.cpp end.
use pcrf.Common.{ℕ, suc, ◌+◌, ◌≤◌, ◌≡◌, ◌≢◌, ◌⊎◌, inl, inr, refl, Bool, true, false, arith}
use pcrf.Timed.{
  SubscriberData, TimedData, Sources, Stage, connecting, reporting, reported, loading, loaded,
  selecting, selected, keying, releasing, awaiting, ended, work, copy_data, use_defaults,
}
use pcrf.Timed.Protocol.{
  Waiter, waiting, copying, timed_out, defaulting, returned, State, begin, IsBusy, Step, works,
  releases, deletes, acquires, gives_up, copies, switches, defaults, Run, start, then_step,
}
use pcrf.Timed.Gathering.{gathered}
use pcrf.Timed.Soundness.{Run-IsSound}

-- Steps that are left at most.
abbrev stage_rank : Stage → ℕ
stage_rank connecting = 10
stage_rank reporting = 9
stage_rank reported = 8
stage_rank loading = 7
stage_rank loaded = 6
stage_rank selecting = 5
stage_rank selected = 4
stage_rank keying = 3
stage_rank releasing = 2
stage_rank awaiting = 1
stage_rank ended = 0

abbrev waiter_rank : Waiter → ℕ
waiter_rank waiting = 3
waiter_rank timed_out = 2
waiter_rank defaulting = 1
waiter_rank copying = 1
waiter_rank returned = 0

rank : State → ℕ
rank s = stage_rank s.stage + waiter_rank s.waiter

rank-work :
    (src : Sources) (offline : Bool) (s : SubscriberData) (st : Stage) (d : TimedData)
    → IsBusy st
    → suc (stage_rank (work src offline s st d).0) ≤ stage_rank st
unfolding work
rank-work src offline s connecting d h = ground arith
rank-work src offline s reporting d h = ground arith
rank-work src offline s reported d h = ground arith
rank-work src offline s loading d h = ground arith
rank-work src offline s loaded d h = ground arith
rank-work src offline s selecting d h = ground arith
rank-work src offline s selected d h = ground arith
rank-work src offline s keying d h = ground arith
rank-work src offline s releasing d h = elim h [ ]
rank-work src offline s awaiting d h = elim h [ ]
rank-work src offline s ended d h = elim h [ ]

rank-Step : (src : Sources) {s t : State} → Step src s t → suc (rank t) ≤ rank s
unfolding rank
rank-Step src (works s b) = omega (arith, rank-work src s.offline s.subscriber s.stage s.timed b)
rank-Step src (releases s e) = rw e (omega arith)
rank-Step src (deletes s e f) = rw e (omega arith)
rank-Step src (acquires s e f) = rw e (omega arith)
rank-Step src (gives_up s e) = rw e (omega arith)
rank-Step src (copies s e) = rw e (omega arith)
rank-Step src (switches s e) = rw e (omega arith)
rank-Step src (defaults s e) = rw e (omega arith)

rank-Run : (src : Sources) {s t : State} {n : ℕ} → Run src s n t → n + rank t ≤ rank s
rank-Run src start = omega arith
rank-Run src (then_step r st) = omega (arith, rank-Run src r, rank-Step src st)

-- The thread data is deleted only after the waiting thread has returned, and while that copies the
-- results the working thread has left its body and does not write to them.
Run-exists :
    (src : Sources) (s₀ : SubscriberData) (n : ℕ) (s : State)
    → Run src (begin s₀) n s
    → ((s.alive ≡ true) ⊎ ((s.waiter ≡ returned) × (s.stage ≡ ended)))
      × ((s.waiter ≢ copying) ⊎ (s.stage ≡ awaiting))
Run-exists src s₀ n s r = let v = Run-IsSound src s₀ r in (ground (arith, v.existing), v.quiet)

-- Where the waiting thread has returned, it has either switched the other one to offline and made
-- the default data, or copied all that the body gathers when it is never switched to offline,
-- whatever the order of the steps of both threads.
pub Run-result :
    (src : Sources) (s₀ : SubscriberData) (n : ℕ) (s : State)
    → Run src (begin s₀) n s
    → s.waiter ≡ returned
    → ((s.offline ≡ true) × (s.subscriber ≡ use_defaults src s₀))
      ⊎ ((s.offline ≡ false) × (s.subscriber ≡ copy_data (gathered src s₀) s₀))
Run-result src s₀ n s r e = let v = Run-IsSound src s₀ r in ground (arith, v.result)

-- What each thread can do next.
waiter_moves :
    (src : Sources) (s : State) (w : Waiter)
    → s.waiter ≡ w
    → (w ≡ returned) ⊎ ((t : State) × Step src s t)
waiter_moves src s waiting e = inr (_, gives_up s e)
waiter_moves src s copying e = inr (_, copies s e)
waiter_moves src s timed_out e = inr (_, switches s e)
waiter_moves src s defaulting e = inr (_, defaults s e)
waiter_moves src s returned e = inl refl

Stage-cases : (st : Stage) → IsBusy st ⊎ ((st ≡ releasing) ⊎ ((st ≡ awaiting) ⊎ (st ≡ ended)))
Stage-cases connecting = inl tt
Stage-cases reporting = inl tt
Stage-cases reported = inl tt
Stage-cases loading = inl tt
Stage-cases loaded = inl tt
Stage-cases selecting = inl tt
Stage-cases selected = inl tt
Stage-cases keying = inl tt
Stage-cases releasing = inr (inl refl)
Stage-cases awaiting = inr (inr (inl refl))
Stage-cases ended = inr (inr (inr refl))

worker_moves :
    (src : Sources) (s : State)
    → (s.data_copied ≡ false) ⊎ (s.stage ≡ ended)
    → (s.stage ≡ ended) ⊎ ((t : State) × Step src s t)
worker_moves src s f = elim (Stage-cases s.stage) [
  | inl b ↦ inr (_, works s b)
  | inr (inl e) ↦ inr (_, releases s e)
  | inr (inr (inl e)) ↦ elim f [ inl g ↦ inr (_, deletes s e g) | inr g ↦ inl g ]
  | inr (inr (inr e)) ↦ inl e
]

-- Both threads end: no run is longer than thirteen steps, and a run that can go no further has
-- both at their ends and the thread data deleted.
pub Run-ends :
    (src : Sources) (s₀ : SubscriberData) (n : ℕ) (s : State)
    → Run src (begin s₀) n s
    → (n ≤ 13)
      × (((t : State) × Step src s t)
          ⊎ ((s.waiter ≡ returned) × (s.stage ≡ ended) × (s.alive ≡ false)))
unfolding rank begin
Run-ends src s₀ n s r =
    let v = Run-IsSound src s₀ r in
    let short : n ≤ 13 = omega (arith, rank-Run src r) in
    elim (waiter_moves src s s.waiter refl) [
      | inr moves ↦ (short, inl moves)
      | inl e ↦
          let free : (s.data_copied ≡ false) ⊎ (s.stage ≡ ended) = ground (arith, v.freed) in
          elim (worker_moves src s free) [
            | inr moves ↦ (short, inl moves)
            | inl g ↦ (short, inr (e, g, ground (arith, v.existing)))
          ]
    ]
