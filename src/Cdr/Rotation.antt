-- ===== src/Cdr/Rotation.antt =====
-- When src/pcrf_cdr.cpp begins a new file.
use native.Mathlib.Nat.{div-add-mod, mod-lt, mul-mod_left, mul_comm}
use pcrf.Common.{ℕ, ◌+◌, ◌/◌, ◌%◌, ◌≤◌, ◌<◌, ◌≡◌, ◌==◌, ==_iff, arith, Bool-cases, inl, inr}
use pcrf.Cdr.{interval_of, next_time}

interval-positive : (configured : ℕ) → 0 < interval_of configured
unfolding interval_of
interval-positive configured = ground arith

rounded_bounds :
    (now interval : ℕ)
    → 0 < interval
    → (now < next_time now interval)
      × (next_time now interval ≤ now + interval)
      × (next_time now interval % interval ≡ 0)
unfolding next_time
rounded_bounds now interval h =
    let t = now + interval in
    let whole = div-add-mod t interval in
    let swapped = mul_comm (t / interval) interval in
    let below = mod-lt t h in
    elim (Bool-cases (t % interval == 0)) [
      | inl e ↦ rw (next_time, e) (omega arith, omega arith, (==_iff (t % interval) 0).0 e)
      | inr e ↦
          rw (next_time, e)
            (
              omega (arith, whole, swapped, below),
              omega (arith, whole, swapped),
              mul-mod_left (t / interval) interval,
            )
    ]

-- The next file is begun at a multiple of the interval, later than now and at most one interval
-- later, whatever interval is configured.
next_time_bounds :
    (now configured : ℕ)
    → (now < next_time now (interval_of configured))
      × (next_time now (interval_of configured) ≤ now + interval_of configured)
      × (next_time now (interval_of configured) % interval_of configured ≡ 0)
next_time_bounds now configured =
    rounded_bounds now (interval_of configured) (interval-positive configured)
