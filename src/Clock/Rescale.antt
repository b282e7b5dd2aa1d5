-- ===== src/Clock/Rescale.antt =====
-- A change of the clock configuration keeps the pace of the events.
use native.Mathlib.Nat.{div-add-mod, mul-add-div_right, div-eq_of_lt, mul_comm}
use megumi.Base.{
  ℕ, ◌+◌, ◌-◌, ◌*◌, ◌/◌, ◌%◌, ◌^◌, ◌≤◌, ◌<◌, ◌≡◌, refl, arith, Bool-cases, inl, inr, ◌==◌, ==_iff,
  u32, ok, ◌∙◌,
}
use megumi.Clock.{Event, rescale}

-- The number of whole clock ticks left, rounded up, is exact on a clock tick.
ticks_left :
    (left s : ℕ)
    → 0 < s
    → left % s ≡ 0
    → left + s < 2 ^ 32
    → u32 (left + s + 2 ^ 32 - 1) / s ≡ left / s
ticks_left left s hs aligned fits =
    let q = left / s in
    let whole : left ≡ q * s = omega (arith, div-add-mod left s, mul_comm q s) in
    let exact : u32 (left + s + 2 ^ 32 - 1) ≡ q * s + (s - 1) = omega arith in
    rw exact (
      mul-add-div_right hs q (s - 1)
      ∙ omega (arith, div-eq_of_lt {n = s - 1} {m = s} (omega arith)))

-- What rescaling must leave: as many clock ticks until the event is due, and as many in a period,
-- counted on the new scale.
abbrev pub Rescaled : ℕ → ℕ → Event → Event → Type 0
Rescaled now scale e e' =
    (e'.scale ≡ scale)
    × (e'.tick ≡ now + (e.tick - now) / e.scale * scale)
    × (e'.period ≡ e.period / e.scale * scale)
    × (e'.owner ≡ e.owner)

-- After a change of the clock configuration on a tick of the event's clock, an event that is due
-- later, with a period of whole clock ticks, is due after as many ticks of the rescaled clock as
-- before, with as many in its period. The times are assumed to fit 32 bits.
pub rescale-Rescaled :
    (now scale : ℕ) (e : Event)
    → 0 < e.scale
    → now ≤ e.tick
    → (e.tick - now) % e.scale ≡ 0
    → e.period % e.scale ≡ 0
    → e.tick + e.scale < 2 ^ 32
    → now + (e.tick - now) / e.scale * scale < 2 ^ 32
    → e.period / e.scale * scale < 2 ^ 32
    → (e' : Event) × (rescale now scale e ≡ ok e') × Rescaled now scale e e'
unfolding rescale
rescale-Rescaled now scale e hs after aligned whole fits due period =
    let left : ℕ = e.tick - now in
    let exact : u32 (e.tick + 2 ^ 32 - now) ≡ left = omega arith in
    let dt = ticks_left left e.scale hs aligned (omega arith) in
    elim (Bool-cases (e.scale == scale)) [
      | inl same ↦
          (let e_scale : e.scale ≡ scale = (==_iff e.scale scale).0 same in
            let base = div-add-mod left e.scale in
            let base' = div-add-mod e.period e.scale in
            (
              e,
              rw same,
              (
                e_scale,
                rw (← e_scale) (omega (arith, mul_comm (left / e.scale) e.scale)),
                rw (← e_scale) (omega (arith, mul_comm (e.period / e.scale) e.scale)),
                refl,
              ),
            ))
      | inr changed ↦ (
        record e {
          period = e.period / e.scale * scale;
          tick = now + left / e.scale * scale;
          scale = scale;
        },
        rw (changed, exact, aligned, dt) (ground arith),
        (refl, refl, refl, refl),
      )
    ]
