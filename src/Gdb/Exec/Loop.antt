-- ===== src/Gdb/Exec/Loop.antt =====
-- The loop of execStep and execContinue, which makes the steps that a relation describes.
use mathlib.Core.Path.{subst}
use megumi.Base.{
  ℕ, zero, suc, ◌≤◌, ◌≡◌, ◌↔◌, refl, arith, Bool, true, false, ok, inl, inr, Bool-cases,
  Result-cases, ◌∙◌, sym,
}
use megumi.Device.Step.{step}
use megumi.Device.{Device}
use megumi.Gdb.Exec.{Links, run_until}
use megumi.Gdb.{Outcome, done, done_injective}

-- From a device, after `i` steps, the first of which the property holds is another, after `j`.
pub data Until (links : Links) (Stop : Device → Type 0) : ℕ → Device → ℕ → Device → Type 0 where
  stops : {i : ℕ} {d e : Device} → step (links i) d ≡ ok e → Stop e → Until links Stop i d (suc i) e
  goes :
      {i j : ℕ} {d f e : Device}
      → step (links i) d ≡ ok f
      → ¬ Stop f
      → Until links Stop (suc i) f j e
      → Until links Stop i d j e

-- A test decides a property.
abbrev pub Decides : (Device → Bool) → (Device → Type 0) → Type 0
Decides test Stop = (d : Device) → (test d ≡ true) ↔ Stop d

module _ (links : Links) (test : Device → Bool) (Stop : Device → Type 0)
    (decides : Decides test Stop) where
  unmet_refuses : (d : Device) → test d ≡ false → ¬ Stop d
  unmet_refuses d unmet h = absurd (cc (sym unmet ∙ (decides d).1 h))

  refused_unmet : (d : Device) → ¬ Stop d → test d ≡ false
  refused_unmet d refused = elim (Bool-cases (test d)) [
    | inl met ↦ absurd (refused ((decides d).0 met))
    | inr unmet ↦ unmet
  ]

  pub loop_sound :
      (fuel i : ℕ) (d : Device) (j : ℕ) (e : Device)
      → run_until links test fuel i d ≡ done (j, e)
      → Until links Stop i d j e
  unfolding run_until
  loop_sound zero i d j e ran = absurd (ground (arith, ran))
  loop_sound (suc fuel) i d j e ran = elim (Result-cases (step (links i) d)) [
    | inl (f, at) ↦ elim (Bool-cases (test f)) [
      | inl met ↦
          let ends : ℕ × Device = (suc i, f) in
          let same : Outcome.done ends ≡ done (j, e) = ground (arith, ran, at, met) in
          subst (λ r. Until links Stop i d (r.0) (r.1)) (done_injective same)
            (stops at ((decides f).0 met))
      | inr unmet ↦
          goes at (unmet_refuses f unmet)
            (loop_sound fuel (suc i) f j e (ground (arith, ran, at, unmet)))
    ]
    | inr (fault, at) ↦ absurd (ground (arith, ran, at))
  ]

  -- Within a number of steps, and within every greater one, the loop ends so.
  abbrev pub Ends : ℕ → Device → ℕ → Device → ℕ → Type 0
  Ends i d j e fuel = (n : ℕ) → fuel ≤ n → run_until links test n i d ≡ done (j, e)

  Ends-stops :
      (i : ℕ) (d e : Device) → step (links i) d ≡ ok e → test e ≡ true → Ends i d (suc i) e 1
  unfolding run_until
  Ends-stops i d e at met zero few = absurd (omega arith)
  Ends-stops i d e at met (suc n) few = rw (at, met, run_until) refl

  Ends-goes :
      (i j : ℕ) (d f e : Device) (fuel : ℕ)
      → step (links i) d ≡ ok f
      → test f ≡ false
      → Ends (suc i) f j e fuel
      → Ends i d j e (suc fuel)
  unfolding run_until
  Ends-goes i j d f e fuel at unmet later zero few = absurd (omega arith)
  Ends-goes i j d f e fuel at unmet later (suc n) few =
      rw (at, unmet, run_until) (later n (omega arith))

  pub loop_complete :
      {i j : ℕ} {d e : Device} → Until links Stop i d j e → (fuel : ℕ) × Ends i d j e fuel
  loop_complete (stops {e = e} at met) = (1, Ends-stops _ _ _ at ((decides e).1 met))
  loop_complete (goes {f = f} at refused later) =
      let (fuel, ends) = loop_complete later in
      (suc fuel, Ends-goes _ _ _ _ _ fuel at (refused_unmet f refused) ends)
