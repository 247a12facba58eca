-- ===== src/Timed/Soundness.antt =====
-- The invariant of the two threads of src/data_proc/pcrf_timed_oper.cpp.
use pcrf.Common.{ℕ, ◌≡◌, ◌≢◌, ◌⊎◌, inl, inr, refl, subst, Bool, true, false, arith}
use pcrf.Timed.{
  SubscriberData, TimedData, Sources, Stage, connecting, reporting, reported, loading, loaded,
  selecting, selected, keying, releasing, awaiting, ended, work, copy_data, use_defaults,
}
use pcrf.Timed.Protocol.{
  copying, defaulting, returned, State, begin, IsBusy, Step, works, releases, deletes, acquires,
  gives_up, copies, switches, defaults, Run, start, then_step,
}
use pcrf.Timed.Gathering.{gathered, rest_of, rest_of-work, rest_of-over}

-- What holds in every state of a run from `begin s₀`.
pub record IsSound (src : Sources) (s₀ : SubscriberData) (s : State) : Type 0 where
  pub existing :
      ((s.alive ≡ true) × (s.stage ≢ ended))
      ⊎ ((s.alive ≡ false) × (s.stage ≡ ended) × (s.waiter ≡ returned))
  pub untouched : (s.waiter ≡ returned) ⊎ ((s.data_copied ≡ true) × (s.subscriber ≡ s₀))
  pub quiet : (s.waiter ≢ copying) ⊎ (s.stage ≡ awaiting)
  pub ready : (s.data_ready ≡ true) ⊎ ((s.stage ≡ awaiting) ⊎ (s.stage ≡ ended))
  pub online :
      ((s.waiter ≢ defaulting) × (s.waiter ≢ returned) × (s.offline ≡ false))
      ⊎ ((s.waiter ≡ defaulting) × (s.offline ≡ true))
      ⊎ (s.waiter ≡ returned)
  pub gathering : (s.offline ≡ true) ⊎ (rest_of src s₀ s.stage s.timed ≡ gathered src s₀)
  pub result :
      (s.waiter ≢ returned)
      ⊎ ((s.offline ≡ true) × (s.subscriber ≡ use_defaults src s₀))
      ⊎ ((s.offline ≡ false)
          × (s.subscriber ≡ copy_data (gathered src s₀) s₀)
          × ((s.stage ≡ awaiting) ⊎ (s.stage ≡ ended)))
  pub freed : (s.waiter ≢ returned) ⊎ (s.data_copied ≡ false) ⊎ (s.stage ≡ ended)

begin-IsSound : (src : Sources) (s₀ : SubscriberData) → IsSound src s₀ (begin s₀)
unfolding begin rest_of gathered
begin-IsSound src s₀ = record {
  existing = inl (refl, λ e. ground (arith, e));
  untouched = inr (refl, refl);
  quiet = inl (λ e. ground (arith, e));
  ready = inl refl;
  online = inl (λ e. ground (arith, e), λ e. ground (arith, e), refl);
  gathering = inr refl;
  result = inl (λ e. ground (arith, e));
  freed = inl (λ e. ground (arith, e));
}

busy_stage : (st : Stage) → IsBusy st → (st ≢ awaiting) × (st ≢ ended)
busy_stage st b = (
  λ e. let no : ⊥ = subst IsBusy e b in elim no [ ],
  λ e. let no : ⊥ = subst IsBusy e b in elim no [ ],
)

work-ne-ended :
    (src : Sources) (offline : Bool) (s : SubscriberData) (st : Stage) (d : TimedData)
    → IsBusy st
    → (work src offline s st d).0 ≢ ended
unfolding work
work-ne-ended src offline s connecting d h = ground arith
work-ne-ended src offline s reporting d h = ground arith
work-ne-ended src offline s reported d h = ground arith
work-ne-ended src offline s loading d h = ground arith
work-ne-ended src offline s loaded d h = ground arith
work-ne-ended src offline s selecting d h = ground arith
work-ne-ended src offline s selected d h = ground arith
work-ne-ended src offline s keying d h = ground arith
work-ne-ended src offline s releasing d h = elim h [ ]
work-ne-ended src offline s awaiting d h = elim h [ ]
work-ne-ended src offline s ended d h = elim h [ ]

Step-IsSound :
    (src : Sources) (s₀ : SubscriberData) {s t : State}
    → Step src s t
    → IsSound src s₀ s
    → IsSound src s₀ t
Step-IsSound src s₀ (works s b) v = ground (
  arith,
  busy_stage s.stage b,
  work-ne-ended src s.offline s.subscriber s.stage s.timed b,
  rest_of-work src s₀ s.stage s.timed,
)
Step-IsSound src s₀ (releases s e) v = ground (arith, rest_of-over src s₀ s.timed)
Step-IsSound src s₀ (deletes s e f) v = ground (arith, rest_of-over src s₀ s.timed)
Step-IsSound src s₀ (acquires s e f) v = ground (arith, rest_of-over src s₀ s.timed)
Step-IsSound src s₀ (gives_up s e) v = ground arith
Step-IsSound src s₀ (copies s e) v = ground (arith, rest_of-over src s₀ s.timed)
Step-IsSound src s₀ (switches s e) v = ground arith
Step-IsSound src s₀ (defaults s e) v = ground arith

pub Run-IsSound :
    (src : Sources) (s₀ : SubscriberData) {n : ℕ} {s : State}
    → Run src (begin s₀) n s
    → IsSound src s₀ s
Run-IsSound src s₀ start = begin-IsSound src s₀
Run-IsSound src s₀ (then_step r st) = Step-IsSound src s₀ st (Run-IsSound src s₀ r)
