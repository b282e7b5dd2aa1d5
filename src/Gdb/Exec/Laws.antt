-- ===== src/Gdb/Exec/Laws.antt =====
-- The steps of execStep and execContinue.
use mathlib.Core.Path.{subst}
use megumi.Base.{
  ℕ, zero, suc, ◌+◌, ◌<◌, ◌≡◌, ◌≢◌, ◌↔◌, ◌⊎◌, refl, ◌∙◌, arith, true, List, [], ◌∷◌, Result, ok,
  ◌>>=◌, bind_ok, ok_injective, inl, inr, Bool-cases, get_elem?, some, ◌==◌,
}
use megumi.Device.Step.{step}
use megumi.Device.{Device}
use megumi.Gdb.Exec.Loop.{Until, stops, goes, Decides, loop_sound, loop_complete}
use megumi.Gdb.Exec.{
  Links, run_until, moved, pc_of, exec_step, has_breakpoint, halts, exec_continue,
}
use megumi.Gdb.{done, bind_done}

-- So many steps of the device, after `i` others.
abbrev pub steps : Links → ℕ → ℕ → Device → Result Device
steps links i zero d = ok d
steps links i (suc n) d = step (links i) d >>= steps links (suc i) n

-- After `i` steps, `n` steps and one more bring a device to a state with a property, which no state
-- after fewer of these steps has.
pub record First (links : Links) (Stop : Device → Type 0) (i n : ℕ) (d e : Device) : Type 0 where
  pub arrives : steps links i (suc n) d ≡ ok e
  pub holds : Stop e
  pub before : (k : ℕ) (f : Device) → k < n → steps links i (suc k) d ≡ ok f → ¬ Stop f

-- PC is not where it was.
abbrev pub HasMoved : ℕ → Device → Type 0
HasMoved pc d = pc ≢ pc_of d

-- PC is at one of the breakpoints, or a BREAK has been met.
abbrev pub HasHalted : List ℕ → Device → Type 0
HasHalted breakpoints d =
    ((k : ℕ) × (get_elem? breakpoints k ≡ some (pc_of d))) ⊎ (d.breaked ≡ true)

moved_decides : (pc : ℕ) → Decides (moved pc) (HasMoved pc)
moved_decides pc d = ((λ h. ground (arith, h)), (λ h. ground (arith, h)))

has_breakpoint-listed :
    (bs : List ℕ) (pc : ℕ) → has_breakpoint bs pc ≡ true → (k : ℕ) × (get_elem? bs k ≡ some pc)
has_breakpoint-listed [] pc h = absurd (cc h)
has_breakpoint-listed (b ∷ bs) pc h = elim (Bool-cases (b == pc)) [
  | inl here ↦ (0, ground (arith, here))
  | inr there ↦ let (k, at) = has_breakpoint-listed bs pc (ground (arith, h, there)) in (suc k, at)
]

listed-has_breakpoint :
    (bs : List ℕ) (pc k : ℕ) → get_elem? bs k ≡ some pc → has_breakpoint bs pc ≡ true
listed-has_breakpoint [] pc k h = absurd (cc h)
listed-has_breakpoint (b ∷ bs) pc zero h = ground (arith, h)
listed-has_breakpoint (b ∷ bs) pc (suc k) h =
    let there = listed-has_breakpoint bs pc k h in ground (arith, there)

halts_decides : (bs : List ℕ) → Decides (halts bs) (HasHalted bs)
halts_decides bs d = (
  (λ h. elim (Bool-cases (has_breakpoint bs (pc_of d))) [
    | inl at ↦ inl (has_breakpoint-listed bs (pc_of d) at)
    | inr away ↦ inr (ground (arith, h, away))
  ]),
  (λ h. elim h [
    | inl (k, at) ↦ let found = listed-has_breakpoint bs (pc_of d) k at in ground (arith, found)
    | inr broken ↦ ground (arith, broken)
  ]),
)

module _ (links : Links) (Stop : Device → Type 0) where
  before_later :
      (i n : ℕ) (d f e : Device)
      → step (links i) d ≡ ok f
      → ¬ Stop f
      → First links Stop (suc i) n f e
      → (k : ℕ) (g : Device) → k < suc n
      → steps links i (suc k) d ≡ ok g
      → ¬ Stop g
  before_later i n d f e at refused later zero g few made =
      let same : f ≡ g = ok_injective (rw at at made) in subst (λ g. ¬ Stop g) same refused
  before_later i n d f e at refused later (suc k) g few made =
      later.before k g (omega arith) (rw at at made)

  Until-First :
      {i j : ℕ} {d e : Device}
      → Until links Stop i d j e
      → (n : ℕ) × (j ≡ i + suc n) × First links Stop i n d e
  Until-First (stops {i} {d} {e} at met) = (
    0,
    omega arith,
    record { arrives = rw at refl; holds = met; before = λ k f few made. absurd (omega arith) },
  )
  Until-First (goes {i} {j} {d} {f} {e} at refused path) =
      let (n, total, later) = Until-First path in
      (
        suc n,
        omega (arith, total),
        record {
          arrives = rw at later.arrives;
          holds = later.holds;
          before = before_later i n d f e at refused later;
        },
      )

  First-Until :
      (i n : ℕ) (d : Device) (j : ℕ) (e : Device)
      → j ≡ i + suc n
      → First links Stop i n d e
      → Until links Stop i d j e
  First-Until i zero d j e total first =
      let (f, at, made) = bind_ok (step (links i) d) _ first.arrives in
      let ends : suc i ≡ j = omega (arith, total) in
      subst (λ j. Until links Stop i d j e) ends (stops (at ∙ made) first.holds)
  First-Until i (suc n) d j e total first =
      let (f, at, made) = bind_ok (step (links i) d) _ first.arrives in
      let later : First links Stop (suc i) n f e = record {
        arrives = made;
        holds = first.holds;
        before = λ k g few reached. first.before (suc k) g (omega arith) (rw at reached);
      } in
      goes at (first.before 0 f (omega arith) (rw at refl))
        (First-Until (suc i) n f j e (omega (arith, total)) later)

-- execStep makes steps up to the first that changes PC: with enough steps given it returns exactly when
-- there is one, after it and in the state that it leaves.
exec_step_steps :
    (links : Links) (d : Device) (j : ℕ) (e : Device)
    → ((fuel : ℕ) × (exec_step links fuel d ≡ done (j, e)))
      ↔ ((n : ℕ) × (j ≡ suc n) × First links (HasMoved (pc_of d)) 0 n d e)
unfolding exec_step
exec_step_steps links d j e =
    let test = moved (pc_of d) in
    let Stop = HasMoved (pc_of d) in
    let decides = moved_decides (pc_of d) in
    (
      (λ (fuel, ran).
          let (n, total, first) =
            Until-First links Stop (loop_sound links test Stop decides fuel 0 d j e ran) in
          (n, omega (arith, total), first)),
      (λ (n, total, first).
          let path = First-Until links Stop 0 n d j e (omega (arith, total)) first in
          let (fuel, ends) = loop_complete links test Stop decides path in
          (fuel, ends fuel (omega arith))),
    )

-- The steps of execContinue: those up to the first that changes PC, and then those up to the first after
-- which PC is at a breakpoint or a BREAK has been met.
abbrev pub Continues : Links → List ℕ → Device → ℕ → Device → Type 0
Continues links breakpoints d j e =
    (m n : ℕ) × (f : Device) × First links (HasMoved (pc_of d)) 0 m d f
    × First links (HasHalted breakpoints) (suc m) n f e
    × (j ≡ suc m + suc n)

exec_continue_sound :
    (links : Links) (fuel : ℕ) (breakpoints : List ℕ) (d : Device) (j : ℕ) (e : Device)
    → exec_continue links fuel breakpoints d ≡ done (j, e)
    → Continues links breakpoints d j e
unfolding exec_continue exec_step
exec_continue_sound links fuel breakpoints d j e ran =
    let (r, made, more) =
      bind_done (exec_step links fuel d) (λ r. run_until links (halts breakpoints) fuel (r.0) (r.1))
        ran in
    let (m, start, first) = (exec_step_steps links d (r.0) (r.1)).0 (fuel, made) in
    let (n, total, second) = Until-First links (HasHalted breakpoints) (
      loop_sound links (halts breakpoints) (HasHalted breakpoints) (halts_decides breakpoints) fuel
        (r.0) (r.1) j e more) in
    (
      m,
      n,
      r.1,
      first,
      subst (λ i. First links (HasHalted breakpoints) i n (r.1) e) start second,
      omega (arith, start, total),
    )

exec_continue_complete :
    (links : Links) (breakpoints : List ℕ) (d : Device) (j : ℕ) (e : Device)
    → Continues links breakpoints d j e
    → (fuel : ℕ) × (exec_continue links fuel breakpoints d ≡ done (j, e))
unfolding exec_continue exec_step
exec_continue_complete links breakpoints d j e (m, n, f, first, second, total) =
    let Moved = HasMoved (pc_of d) in
    let Halted = HasHalted breakpoints in
    let (few, started) =
      loop_complete links (moved (pc_of d)) Moved (moved_decides (pc_of d))
        (First-Until links Moved 0 m d (suc m) f (omega arith) first) in
    let (more, ended) =
      loop_complete links (halts breakpoints) Halted (halts_decides breakpoints)
        (First-Until links Halted (suc m) n f j e total second) in
    (few + more, rw (started (few + more) (omega arith)) (ended (few + more) (omega arith)))

-- execContinue makes steps up to the first after which PC is not where it was, and then at least one more,
-- up to the first after which PC is at one of the breakpoints or a BREAK has been met: with enough steps
-- given it returns exactly when there are these steps and each of them returns, after them and in the
-- state that they leave.
pub exec_continue_steps :
    (links : Links) (breakpoints : List ℕ) (d : Device) (j : ℕ) (e : Device)
    → ((fuel : ℕ) × (exec_continue links fuel breakpoints d ≡ done (j, e)))
      ↔ Continues links breakpoints d j e
exec_continue_steps links breakpoints d j e = (
  (λ (fuel, ran). exec_continue_sound links fuel breakpoints d j e ran),
  exec_continue_complete links breakpoints d j e,
)
