-- ===== src/Interrupt/Queue.antt =====
-- setIvLvl moves one vector to one level.
use megumi.Base.{ℕ, ◌+◌, ◌≤◌, ◌≡◌, arith, if◌then◌else◌, ◌==◌}
use megumi.Common.{IntLvl, lo, med, hi, nmi, to_ℕ}
use megumi.Common
use megumi.Interrupt.{Pending, set_iv_lvl}
use megumi.IvSet.{
  member, member-insert, member-erase, IsIncreasing, insert-IsIncreasing, erase-IsIncreasing,
  insert, erase,
}

-- The level at which a vector is pending; `none` if it is not.
abbrev pub level_of : Pending → ℕ → IntLvl
level_of p j =
    if member j p.nmi
    then nmi
    else if member j p.hi
    then hi
    else if member j p.med
    then med
    else if member j p.lo
    then lo
    else Common.none

-- A vector waits in one queue at most.
abbrev pub Once : Pending → ℕ → Type 0
Once p j =
    to_ℕ (member j p.lo) + to_ℕ (member j p.med) + to_ℕ (member j p.hi) + to_ℕ (member j p.nmi) ≤ 1

-- The queues are sets in order, and a vector waits in one of them at most.
pub record IsPending (p : Pending) : Type 0 where
  pub once : (j : ℕ) → Once p j
  pub lo_in_order : IsIncreasing p.lo
  pub med_in_order : IsIncreasing p.med
  pub hi_in_order : IsIncreasing p.hi
  pub nmi_in_order : IsIncreasing p.nmi

module _ (p : Pending) (iv j : ℕ) where
  abbrev Moves : IntLvl → Type 0
  Moves lvl =
      (level_of (set_iv_lvl p iv lvl) j ≡ (if iv == j then lvl else level_of p j))
      × Once (set_iv_lvl p iv lvl) j

  set_iv_lvl-Moves : (lvl : IntLvl) → Once p iv → Once p j → Moves lvl
  unfolding set_iv_lvl
  set_iv_lvl-Moves Common.none here there = ground (
    arith,
    member-erase iv j p.lo,
    member-erase iv j p.med,
    member-erase iv j p.hi,
    member-erase iv j p.nmi,
  )
  set_iv_lvl-Moves lo here there = ground (
    arith,
    member-insert iv j p.lo,
    member-erase iv j p.med,
    member-erase iv j p.hi,
    member-erase iv j p.nmi,
  )
  set_iv_lvl-Moves med here there = ground (
    arith,
    member-erase iv j p.lo,
    member-insert iv j p.med,
    member-erase iv j p.hi,
    member-erase iv j p.nmi,
  )
  set_iv_lvl-Moves hi here there = ground (
    arith,
    member-erase iv j p.lo,
    member-erase iv j p.med,
    member-insert iv j p.hi,
    member-erase iv j p.nmi,
  )
  set_iv_lvl-Moves nmi here there = ground (
    arith,
    member-erase iv j p.lo,
    member-erase iv j p.med,
    member-erase iv j p.hi,
    member-insert iv j p.nmi,
  )

-- setIvLvl makes a vector pending at the given level, or no longer pending at level `none`, and
-- leaves every other vector at its level, provided that each of the two waits in one queue at most.
pub set_iv_lvl-level_of :
    (p : Pending) (iv j : ℕ) (lvl : IntLvl)
    → Once p iv
    → Once p j
    → level_of (set_iv_lvl p iv lvl) j ≡ (if iv == j then lvl else level_of p j)
set_iv_lvl-level_of p iv j lvl here there = (set_iv_lvl-Moves p iv j lvl here there).0

module _ (p : Pending) (iv : ℕ) where
  abbrev InOrder : Pending → Type 0
  InOrder q = IsIncreasing q.lo × IsIncreasing q.med × IsIncreasing q.hi × IsIncreasing q.nmi

  set_iv_lvl-InOrder : (lvl : IntLvl) → InOrder p → InOrder (set_iv_lvl p iv lvl)
  unfolding set_iv_lvl
  set_iv_lvl-InOrder lvl v = split lvl
    where
      insert_lo : IsIncreasing (insert iv p.lo)
      insert_lo = insert-IsIncreasing iv p.lo v.0

      insert_med : IsIncreasing (insert iv p.med)
      insert_med = insert-IsIncreasing iv p.med v.1

      insert_hi : IsIncreasing (insert iv p.hi)
      insert_hi = insert-IsIncreasing iv p.hi v.2

      insert_nmi : IsIncreasing (insert iv p.nmi)
      insert_nmi = insert-IsIncreasing iv p.nmi v.3

      erase_lo : IsIncreasing (erase iv p.lo)
      erase_lo = erase-IsIncreasing iv p.lo v.0

      erase_med : IsIncreasing (erase iv p.med)
      erase_med = erase-IsIncreasing iv p.med v.1

      erase_hi : IsIncreasing (erase iv p.hi)
      erase_hi = erase-IsIncreasing iv p.hi v.2

      erase_nmi : IsIncreasing (erase iv p.nmi)
      erase_nmi = erase-IsIncreasing iv p.nmi v.3

      split : (lvl : IntLvl) → InOrder (set_iv_lvl p iv lvl)
      split Common.none = ground (arith, erase_lo, erase_med, erase_hi, erase_nmi)
      split lo = ground (arith, insert_lo, erase_med, erase_hi, erase_nmi)
      split med = ground (arith, erase_lo, insert_med, erase_hi, erase_nmi)
      split hi = ground (arith, erase_lo, erase_med, insert_hi, erase_nmi)
      split nmi = ground (arith, erase_lo, erase_med, erase_hi, insert_nmi)

-- setIvLvl keeps the queues ordered sets, with each vector in one of them at most.
pub set_iv_lvl-IsPending :
    (p : Pending) (iv : ℕ) (lvl : IntLvl) → IsPending p → IsPending (set_iv_lvl p iv lvl)
set_iv_lvl-IsPending p iv lvl v =
    let order =
      set_iv_lvl-InOrder p iv lvl (v.lo_in_order, v.med_in_order, v.hi_in_order, v.nmi_in_order) in
    record {
      once = λ j. (set_iv_lvl-Moves p iv j lvl (v.once iv) (v.once j)).1;
      lo_in_order = order.0;
      med_in_order = order.1;
      hi_in_order = order.2;
      nmi_in_order = order.3;
    }
