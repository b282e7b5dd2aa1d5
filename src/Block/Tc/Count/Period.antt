-- ===== src/Block/Tc/Count/Period.antt =====
-- How a timer that counts up runs.
use megumi.Base.{
  ℕ, zero, suc, ◌+◌, ◌-◌, ◌/◌, ◌%◌, ◌≤◌, ◌<◌, ◌≡◌, refl, ap, arith, false, ◌==◌, if◌then◌else◌,
  Bool-cases, inl, inr, ==_iff, ◌∙◌, sym,
}
use native.Mathlib.Nat.{mod_self, add-div_right, mod-eq_of_lt, add-mod_right, div-eq_of_lt, mod-lt}
use megumi.Block.Tc.Count.{count, count_up}
use megumi.Block.Tc.{Tc, wgmode, process_update}
use megumi.Common.{has_bit, to_ℕ}

-- n ticks of the counter alone, and the overflows in them.
pub run : ℕ → Tc → Tc × ℕ
unfolding count
run zero t = (t, 0)
run (suc n) t =
    let (counted, overflow) = count t in
    let (after, overflows) = run n counted in (after, to_ℕ overflow + overflows)

-- The timer counts up in the normal mode, with no buffered value waiting, to `per`.
abbrev pub IsNormal : ℕ → Tc → Type 0
IsNormal per t =
    (has_bit 0 t.ctrlf ≡ false)
    × (wgmode t ≡ 0)
    × (t.ctrlg ≡ 0)
    × (t.value.per ≡ per)
    × (t.cnt ≤ per)

-- The count after one tick.
abbrev after_tick : ℕ → ℕ → ℕ
after_tick per cnt = if cnt == per then 1 else cnt + 1

count-IsNormal :
    (per : ℕ) (t : Tc)
    → 0 < per
    → per < 256
    → IsNormal per t
    → let (t', overflow) = count t in
      IsNormal per t' × (t'.cnt ≡ after_tick per t.cnt) × (overflow ≡ (t'.cnt == per))
unfolding count count_up process_update
count-IsNormal per t h k (up, mode, unbuffered, top_is, within) = ground arith

-- One tick in the count of periods.
last_phase : (per cnt : ℕ) → 0 < per → cnt ≤ per → after_tick per cnt ≡ per → cnt % per ≡ per - 1
last_phase per cnt h k last = elim (Bool-cases (cnt == per)) [
  | inl full ↦ (let e : cnt ≡ per = (==_iff _ _).0 full in rw (e, mod_self per) (ground arith))
  | inr short ↦ mod-eq_of_lt {n = cnt} {m = per} (ground arith) ∙ ground arith
]

next_phase :
    (per cnt : ℕ)
    → 0 < per
    → cnt ≤ per
    → (after_tick per cnt == per) ≡ false
    → after_tick per cnt % per ≡ cnt % per + 1
next_phase per cnt h k short = elim (Bool-cases (cnt == per)) [
  | inl full ↦
      (let e : cnt ≡ per = (==_iff _ _).0 full in
        let more : 1 < per = ground arith in
        rw (full, e, mod_self per, mod-eq_of_lt {n = 1} {m = per} more) (omega arith))
  | inr below ↦
      (let room : cnt + 1 < per = ground arith in
        rw
          (
            below,
            mod-eq_of_lt {n = cnt + 1} {m = per} room,
            mod-eq_of_lt {n = cnt} {m = per} (omega arith),
          )
          refl)
]

tick_periods :
    (n per cnt : ℕ)
    → 0 < per
    → cnt ≤ per
    → to_ℕ (after_tick per cnt == per) + (n + after_tick per cnt % per) / per
      ≡ (suc n + cnt % per) / per
tick_periods n per cnt h k = elim (Bool-cases (after_tick per cnt == per)) [
  | inl full ↦
      (let last : after_tick per cnt ≡ per = (==_iff _ _).0 full in
        let before : cnt % per ≡ per - 1 = last_phase per cnt h k last in
        let sum : suc n + (per - 1) ≡ n + per = omega arith in
        let plain : n + 0 ≡ n = omega arith in
        rw (full, last, mod_self per, plain, before, sum, add-div_right n h) (omega arith))
  | inr short ↦
      (let next : after_tick per cnt % per ≡ cnt % per + 1 = next_phase per cnt h k short in
        let sum : n + (cnt % per + 1) ≡ suc n + cnt % per = omega arith in
        rw (short, next, sum) (omega arith))
]

tick_phase : (n per cnt : ℕ) → (n + after_tick per cnt) % per ≡ (suc n + cnt) % per
tick_phase n per cnt = elim (Bool-cases (cnt == per)) [
  | inl full ↦
      (let e : cnt ≡ per = (==_iff _ _).0 full in
        rw (full, e) (ap (λ x. x % per) (omega arith) ∙ sym (add-mod_right (suc n) per)))
  | inr short ↦ rw short (ap (λ x. x % per) (omega arith))
]

-- When the timer counts up in the normal mode, with no buffered value waiting, to a PER between 1
-- and 255, it overflows once every PER ticks: after n ticks the count is n further modulo PER, and
-- the overflows are the periods completed.
pub run_periods :
    (n per : ℕ) (t : Tc)
    → 0 < per
    → per < 256
    → IsNormal per t
    → ((run n t).1 ≡ (n + t.cnt % per) / per)
      × ((run n t).0.cnt % per ≡ (n + t.cnt) % per)
      × IsNormal per (run n t).0
unfolding run
run_periods zero per t h k v =
    let none : t.cnt % per / per ≡ 0 = div-eq_of_lt (mod-lt t.cnt h) in
    let same : 0 + t.cnt % per ≡ t.cnt % per = omega arith in
    (rw (same, none) refl, ap (λ x. x % per) (omega arith), v)
run_periods (suc n) per t h k v =
    let (v', moved, over) = count-IsNormal per t h k v in
    let (periods, phase, v'') = run_periods n per (count t).0 h k v' in
    (
      rw (over, periods, moved) (tick_periods n per t.cnt h v.4),
      rw (phase, moved) (tick_phase n per t.cnt),
      v'',
    )
