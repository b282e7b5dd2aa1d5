-- ===== src/Clock/Schedule.antt =====
-- Events fire at the ticks that they were scheduled for.
use megumi.Base.{
  ℕ, zero, suc, ◌+◌, ◌-◌, ◌*◌, ◌/◌, ◌%◌, ◌^◌, ◌≤◌, ◌<◌, ◌≡◌, arith, u32, Bool-cases, inl, inr,
}
use native.Mathlib.Nat.{div-add-mod, mod-lt, mul-mod_left, add-div_right}
use megumi.Common.{to_ℕ}
use megumi.Clock.{Event, ClockType, scheduled, is_due, advance}

-- An event scheduled for a positive number of ticks of its clock, whose scale is positive, is due
-- on a tick of that clock, after the current time and at most that many clock ticks away; its
-- period is the number of ticks. The times are assumed to fit 32 bits.
scheduled_due :
    (now owner ticks scale : ℕ) (clock : ClockType)
    → 0 < ticks
    → 0 < scale
    → now + ticks * scale < 2 ^ 32
    → let e = scheduled now owner clock ticks scale in
      (now < e.tick)
      × (e.tick ≤ now + ticks * scale)
      × (e.tick % scale ≡ 0)
      × (e.period ≡ ticks * scale)
scheduled_due now owner ticks scale clock ht hs fits =
    let due = (now / scale + ticks) * scale in
    let sum : due ≡ now / scale * scale + ticks * scale = omega arith in
    let base = div-add-mod now scale in
    let below : now % scale < scale = mod-lt now hs in
    let positive : scale ≤ ticks * scale = grind arith in
    let exact : u32 due ≡ due = grind arith in
    (rw exact (omega arith), rw exact (omega arith), rw exact (mul-mod_left _ _), omega arith)

-- How often an event fires in the n SYS ticks after `now`.
pub fires : ℕ → ℕ → Event → ℕ
fires zero now e = 0
fires (suc n) now e = to_ℕ (is_due (now + 1) e) + fires n (now + 1) (advance (now + 1) e)

-- An event that is due within its period fires once in each period from then on. The times are
-- assumed to fit 32 bits.
pub fires_periodic :
    (n now : ℕ) (e : Event)
    → now < e.tick
    → e.tick ≤ now + e.period
    → now + n + e.period < 2 ^ 32
    → fires n now e ≡ (now + n + e.period - e.tick) / e.period
unfolding fires
fires_periodic zero now e after within fits = grind arith
fires_periodic (suc n) now e after within fits = elim (Bool-cases (is_due (now + 1) e)) [
  | inl due ↦
      (let t : e.tick ≡ now + 1 = ground arith in
        let next =
          fires_periodic n (now + 1) (record e { tick = u32 (e.tick + e.period) }) (omega arith)
            (omega arith) (omega arith) in
        let shift : now + 1 + n + e.period - u32 (e.tick + e.period) ≡ n = omega arith in
        let left : now + suc n + e.period - e.tick ≡ n + e.period = omega arith in
        rw (due, next, shift, left, add-div_right n {k = e.period} (omega arith)) (omega arith))
  | inr later ↦
      (let t : now + 1 < e.tick = ground arith in
        let next = fires_periodic n (now + 1) e t (omega arith) (omega arith) in
        let same : now + 1 + n + e.period - e.tick ≡ now + suc n + e.period - e.tick =
          omega arith in
        rw (later, next, same) (omega arith))
]
