-- ===== src/Tracer.antt =====
-- The choice of the sessions to dump: src/pcrf_tracer.cpp, less the dump itself.
pub mod Conditions
use pcrf.Common.{
  ℕ, Bool, true, false, ◌&&◌, ◌||◌, not, List, [], ◌∷◌, ◌==◌, if◌then◌else◌, Option, none, some,
}
use pcrf.Common.Text.{Text}
use pcrf.Common.Lists.{contains, erase_all, set_insert}

-- The unordered sets of the module; g_rwlockTracer is assumed to be taken. A set is kept without
-- repetition, the order of its elements is not observed.
pub record Tracer : Type 0 where
  pub session_ids : List Text
  pub application_ids : List ℕ
  pub imsis : List Text
  pub e164s : List Text
  pub apns : List Text

-- ETracerConditionType with the value that p_pvValue points to.
pub data Condition : Type 0 where
  not_interested : Condition
  imsi e164 apn : Text → Condition
  application_id : ℕ → Condition

unfoldable pub has_id : ℕ → List ℕ → Bool
has_id n [] = false
has_id n (m ∷ ms) = n == m || has_id n ms

unfoldable insert_id : ℕ → List ℕ → List ℕ
unfolding has_id
insert_id n ms = if has_id n ms then ms else n ∷ ms

unfoldable pub erase_id : ℕ → List ℕ → List ℕ
erase_id n [] = []
erase_id n (m ∷ ms) = let rest = erase_id n ms in if n == m then rest else m ∷ rest

-- pcrf_tracer_set_condition.
unfoldable pub set_condition : Condition → Tracer → Tracer
unfolding insert_id
set_condition not_interested t = t
set_condition (imsi v) t = record t { imsis = set_insert v t.imsis }
set_condition (e164 v) t = record t { e164s = set_insert v t.e164s }
set_condition (application_id n) t = record t { application_ids = insert_id n t.application_ids }
set_condition (apn v) t = record t { apns = set_insert v t.apns }

-- pcrf_tracer_reset_condition; the case of an APN inserts, as the code does.
unfoldable pub reset_condition : Condition → Tracer → Tracer
unfolding erase_id
reset_condition not_interested t = t
reset_condition (imsi v) t = record t { imsis = erase_all v t.imsis }
reset_condition (e164 v) t = record t { e164s = erase_all v t.e164s }
reset_condition (application_id n) t = record t { application_ids = erase_id n t.application_ids }
reset_condition (apn v) t = record t { apns = set_insert v t.apns }

-- pcrf_tracer_set_session_id and pcrf_tracer_reset_session_id; `none` is a null pointer.
unfoldable pub set_session_id : Option Text → Tracer → Tracer
set_session_id none t = t
set_session_id (some sid) t = record t { session_ids = set_insert sid t.session_ids }

unfoldable pub reset_session_id : Option Text → Tracer → Tracer
reset_session_id none t = t
reset_session_id (some sid) t = record t { session_ids = erase_all sid t.session_ids }

abbrev pub is_nil {ℓ} : {A : Type ℓ} → List A → Bool
is_nil [] = true
is_nil (_ ∷ _) = false

-- pcrf_tracer_check_session_by_condition.
unfoldable pub check_session_by_condition : Text → Text → Text → Text → ℕ → Tracer → Tracer
check_session_by_condition sid im e apname app t =
    let hit = record t { session_ids = set_insert sid t.session_ids } in
    if is_nil sid
    then t
    else if not (is_nil t.imsis) && contains im t.imsis
    then hit
    else if not (is_nil t.e164s) && contains e t.e164s
    then hit
    else if not (is_nil t.apns) && contains apname t.apns
    then hit
    else if not (app == 0) && has_id app t.application_ids
    then hit
    else t

-- pcrf_tracer_is_need_dump.
unfoldable pub is_need_dump : Text → Tracer → ℕ
is_need_dump sid t = if not (is_nil sid) && contains sid t.session_ids then 1 else 0
