-- ===== src/Tracer/Conditions.antt =====
-- Which sessions src/pcrf_tracer.cpp dumps.
use pcrf.Common.{
  ℕ, ◌≡◌, refl, Bool, true, false, ◌&&◌, ◌||◌, not, List, [], ◌∷◌, ◌==◌, if◌then◌else◌, arith,
}
use pcrf.Common.Text.{Text, text_eq, text_eq_refl}
use pcrf.Common.Lists.{contains, contains-erase_all, contains-set_insert}
use pcrf.Tracer.{
  Tracer, Condition, not_interested, imsi, e164, application_id, apn, has_id, erase_id,
  reset_condition, is_nil, check_session_by_condition, is_need_dump,
}

-- Whether a message with these values meets a condition that is set.
abbrev pub meets : Text → Text → Text → ℕ → Tracer → Bool
meets im e apname app t =
    contains im t.imsis
    || contains e t.e164s
    || contains apname t.apns
    || not (app == 0) && has_id app t.application_ids

-- The tests for an empty set change nothing.
guarded : (x : Text) (l : List Text) → (not (is_nil l) && contains x l) ≡ contains x l
unfolding contains
guarded x [] = refl
guarded x (y ∷ l) = refl

is_nil-eq : (sid x : Text) → text_eq sid x ≡ true → is_nil sid ≡ is_nil x
unfolding text_eq
is_nil-eq [] [] h = refl
is_nil-eq [] (b ∷ x) h = cc
is_nil-eq (a ∷ sid) [] h = cc
is_nil-eq (a ∷ sid) (b ∷ x) h = refl

-- After a message of a session was checked, another session is dumped exactly if it was before,
-- and the session itself exactly if it was before or its id is not empty and the message meets
-- a condition.
is_need_dump-check_session_by_condition :
    (sid im e apname : Text) (app : ℕ) (x : Text) (t : Tracer)
    → is_need_dump x (check_session_by_condition sid im e apname app t) ≡ (
        if text_eq sid x && not (is_nil sid) && meets im e apname app t
        then 1
        else is_need_dump x t)
unfolding is_need_dump check_session_by_condition
is_need_dump-check_session_by_condition sid im e apname app x t =
    rw (guarded im t.imsis, guarded e t.e164s, guarded apname t.apns)
      (ground (arith, contains-set_insert x sid t.session_ids, is_nil-eq sid x))

-- Whether a condition is set.
abbrev pub is_set : Condition → Tracer → Bool
is_set not_interested t = false
is_set (imsi v) t = contains v t.imsis
is_set (e164 v) t = contains v t.e164s
is_set (application_id n) t = has_id n t.application_ids
is_set (apn v) t = contains v t.apns

abbrev is_apn : Condition → Bool
is_apn (apn v) = true
is_apn _ = false

has_id-erase_id : (n m : ℕ) (l : List ℕ) → has_id n (erase_id m l) ≡ (has_id n l && not (n == m))
unfolding has_id erase_id
has_id-erase_id n m [] = refl
has_id-erase_id n m (k ∷ l) = ground (arith, has_id-erase_id n m l)

-- Resetting a condition removes it, unless it is one on the APN: that one is set afterwards,
-- whether it was before or not.
pub is_set-reset_condition :
    (c : Condition) (t : Tracer) → is_set c (reset_condition c t) ≡ is_apn c
unfolding reset_condition
is_set-reset_condition not_interested t = refl
is_set-reset_condition (imsi v) t = ground (arith, contains-erase_all v v t.imsis, text_eq_refl v)
is_set-reset_condition (e164 v) t = ground (arith, contains-erase_all v v t.e164s, text_eq_refl v)
is_set-reset_condition (application_id n) t = ground (arith, has_id-erase_id n n t.application_ids)
is_set-reset_condition (apn v) t = ground (arith, contains-set_insert v v t.apns, text_eq_refl v)
