-- ===== src/Timed/Protocol.antt =====
-- The two threads of a request, the waiting one (pcrf_subscriber_data_proc) and the working one
-- (pcrf_subscriber_data_timed_oper) of src/data_proc/pcrf_timed_oper.cpp, and what they share.
use pcrf.Common.{ℕ, suc, ◌≡◌, Bool, true, false}
use pcrf.Timed.{
  SubscriberData, TimedData, Sources, Stage, connecting, releasing, awaiting, ended, work,
  copy_data, use_defaults, new_timed_data,
}

-- Where the waiting thread is: in the timed lock of m_mutexDataReady; with that mutex, before the
-- data is copied; after the lock has failed, before m_iSwitchedToOffline is set; before the
-- default data is made; behind the unlock of m_mutexDataCopied.
pub data Waiter : Type 0 where
  waiting copying timed_out defaulting returned : Waiter

-- Both mutexes, true where locked; m_iSwitchedToOffline; whether the STimedData and what it points
-- to exist.
pub record State : Type 0 where
  pub waiter : Waiter
  pub stage : Stage
  pub data_ready : Bool
  pub data_copied : Bool
  pub offline : Bool
  pub alive : Bool
  pub timed : TimedData
  pub subscriber : SubscriberData

-- After pthread_create.
unfoldable pub begin : SubscriberData → State
begin s = record {
  waiter = waiting;
  stage = connecting;
  data_ready = true;
  data_copied = true;
  offline = false;
  alive = true;
  timed = new_timed_data s;
  subscriber = s;
}

-- The stages in which the working thread runs its body.
abbrev pub IsBusy : Stage → Type 0
IsBusy releasing = ⊥
IsBusy awaiting = ⊥
IsBusy ended = ⊥
IsBusy _ = Unit {0}

pub data Step (src : Sources) : State → State → Type 0 where
  works :
      (s : State)
      → IsBusy s.stage
      → Step src s (record s {
        stage = (work src s.offline s.subscriber s.stage s.timed).0;
        timed = (work src s.offline s.subscriber s.stage s.timed).1;
      })
  releases :
      (s : State)
      → s.stage ≡ releasing
      → Step src s (record s { stage = awaiting; data_ready = false })
  deletes :
      (s : State)
      → s.stage ≡ awaiting
      → s.data_copied ≡ false
      → Step src s (record s { stage = ended; data_copied = true; alive = false })
  acquires :
      (s : State)
      → s.waiter ≡ waiting
      → s.data_ready ≡ false
      → Step src s (record s { waiter = copying; data_ready = true })
  gives_up : (s : State) → s.waiter ≡ waiting → Step src s (record s { waiter = timed_out })
  copies :
      (s : State)
      → s.waiter ≡ copying
      → Step src s (record s {
        waiter = returned;
        data_copied = false;
        subscriber = copy_data s.timed s.subscriber;
      })
  switches :
      (s : State)
      → s.waiter ≡ timed_out
      → Step src s (record s { waiter = defaulting; offline = true })
  defaults :
      (s : State)
      → s.waiter ≡ defaulting
      → Step src s (record s {
        waiter = returned;
        data_copied = false;
        subscriber = use_defaults src s.subscriber;
      })

-- A run of `n` steps.
pub data Run (src : Sources) (s : State) : ℕ → State → Type 0 where
  start : Run src s 0 s
  then_step : {n : ℕ} {t u : State} → Run src s n t → Step src t u → Run src s (suc n) u
