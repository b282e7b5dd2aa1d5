-- ===== src/Interrupt/Choice.antt =====
-- Which interrupt is served, and that RETI undoes the entry.
use megumi.Base.{
  ℕ, ◌≤◌, ◌<◌, ◌≡◌, ◌≢◌, refl, arith, Bool, true, false, ◌&&◌, ltb, List, [], ◌∷◌, none, some,
}
use megumi.Block.Pmic.{Status, Pmic, set_level, hilvlen, medlvlen, lolvlen}
use megumi.Common.{IntLvl, lo, med, hi, nmi, to_ℕ, lvl_code}
use megumi.Common
use megumi.Interrupt.{Pending, Served, choose, current_int_lvl, leave_level}
use megumi.Interrupt.Queue.{IsPending}
use megumi.IvSet.{member, IsIncreasing, member-Above}

-- The queue of a level, and whether the controller lets the level through.
abbrev pub queue : Pending → IntLvl → List ℕ
queue p Common.none = []
queue p lo = p.lo
queue p med = p.med
queue p hi = p.hi
queue p nmi = p.nmi

abbrev pub enabled : Pmic → IntLvl → Bool
enabled c Common.none = false
enabled c lo = lolvlen c
enabled c med = medlvlen c
enabled c hi = hilvlen c
enabled c nmi = true

-- A level may be served when it is enabled, above the one in execution, and has a vector waiting.
abbrev pub eligible : Pending → Pmic → IntLvl → Bool
eligible p c lvl =
    enabled c lvl
    && ltb (lvl_code (current_int_lvl c.status)) (lvl_code lvl)
    && elim (queue p lvl) [ [] ↦ false | iv ∷ rest ↦ true ]

-- What is served is on an eligible level, and no higher level is eligible; its vector is the first
-- of the level's queue, and the level's queue without it is left.
abbrev pub IsBest : Pending → Pmic → Served → Type 0
IsBest p c s =
    (eligible p c s.level ≡ true)
    × ((lvl : IntLvl) → lvl_code s.level < lvl_code lvl → eligible p c lvl ≡ false)
    × (queue p s.level ≡ s.iv ∷ queue s.left s.level)
    × ((lvl : IntLvl) → lvl ≢ s.level → queue s.left lvl ≡ queue p lvl)

module _ (p : Pending) (c : Pmic) (s : Served) (chosen : choose p c ≡ some s) where
  best_eligible : eligible p c s.level ≡ true
  unfolding choose current_int_lvl
  best_eligible = ground arith

  best_highest : (lvl : IntLvl) → lvl_code s.level < lvl_code lvl → eligible p c lvl ≡ false
  unfolding choose current_int_lvl
  best_highest Common.none h = refl
  best_highest lo h = ground arith
  best_highest med h = ground arith
  best_highest hi h = ground arith
  best_highest nmi h = ground arith

  best_first : queue p s.level ≡ s.iv ∷ queue s.left s.level
  unfolding choose current_int_lvl
  best_first = ground arith

  best_rest : (lvl : IntLvl) → lvl ≢ s.level → queue s.left lvl ≡ queue p lvl
  unfolding choose current_int_lvl
  best_rest Common.none h = refl
  best_rest lo h = ground arith
  best_rest med h = ground arith
  best_rest hi h = ground arith
  best_rest nmi h = ground arith

first_least :
    (xs rest : List ℕ) (i j : ℕ) → IsIncreasing xs → xs ≡ i ∷ rest → member j xs ≡ true → i ≤ j
unfolding member
first_least [] rest i j v e m = cc
first_least (x ∷ xs) rest i j v e m = ground (arith, member-Above x j xs v)

queue-IsIncreasing : (p : Pending) (lvl : IntLvl) → IsPending p → IsIncreasing (queue p lvl)
queue-IsIncreasing p Common.none v = tt
queue-IsIncreasing p lo v = v.lo_in_order
queue-IsIncreasing p med v = v.med_in_order
queue-IsIncreasing p hi v = v.hi_in_order
queue-IsIncreasing p nmi v = v.nmi_in_order

-- When the queues are ordered sets with each vector in one of them at most, the interrupt that is
-- chosen is on an eligible level, no higher level is eligible, it is the lowest vector pending on
-- its level, and it alone is taken out of the queues.
pub choose-IsBest :
    (p : Pending) (c : Pmic) (s : Served)
    → IsPending p
    → choose p c ≡ some s
    → IsBest p c s × ((j : ℕ) → member j (queue p s.level) ≡ true → s.iv ≤ j)
choose-IsBest p c s v chosen =
    let first = best_first p c s chosen in
    (
      (best_eligible p c s chosen, best_highest p c s chosen, first, best_rest p c s chosen),
      λ j m.
          first_least (queue p s.level) (queue s.left s.level) s.iv j
            (queue-IsIncreasing p s.level v) first m,
    )

-- When no interrupt is chosen, no level is eligible.
pub choose_none :
    (p : Pending) (c : Pmic) → choose p c ≡ none → (lvl : IntLvl) → eligible p c lvl ≡ false
unfolding choose current_int_lvl
choose_none p c e Common.none = refl
choose_none p c e lo = ground arith
choose_none p c e med = ground arith
choose_none p c e hi = ground arith
choose_none p c e nmi = ground arith

-- RETI after the entry into a level above the one in execution gives the levels in execution back.
pub leave_level-set_level :
    (s : Status) (lvl : IntLvl)
    → lvl_code (current_int_lvl s) < lvl_code lvl
    → leave_level (set_level s lvl) ≡ s
unfolding leave_level current_int_lvl
leave_level-set_level s Common.none h = ground arith
leave_level-set_level s lo h = ground arith
leave_level-set_level s med h = ground arith
leave_level-set_level s hi h = ground arith
leave_level-set_level s nmi h = ground arith
