-- ===== src/Interrupt.antt =====
-- The interrupt queues of device.h and device.cpp: setIvLvl, currentIntLvl, and the choice that
-- processPendingInterrupts makes.
pub mod Queue
pub mod Choice
mod Tests
use megumi.Base.{
  ℕ, Bool, true, false, ◌&&◌, not, if◌then◌else◌, ltb, leb, nonzero, List, [], ◌∷◌, Option, none,
  some,
}
use megumi.Block.Pmic.{Status, Pmic, set_level, hilvlen, medlvlen, lolvlen}
use megumi.Common.{IntLvl, lo, med, hi, nmi, lvl_code}
use megumi.Common
use megumi.IvSet.{member, insert, erase}

-- iv_pending_
pub record Pending : Type 0 where
  pub lo : List ℕ
  pub med : List ℕ
  pub hi : List ℕ
  pub nmi : List ℕ

-- setIvLvl: `break` after the first queue that held the vector, or at once if the vector was
-- pending on its level already.
pub set_iv_lvl : Pending → ℕ → IntLvl → Pending
set_iv_lvl p iv Common.none =
    if member iv p.lo
    then record p { lo = erase iv p.lo }
    else if member iv p.med
    then record p { med = erase iv p.med }
    else if member iv p.hi
    then record p { hi = erase iv p.hi }
    else if member iv p.nmi
    then record p { nmi = erase iv p.nmi }
    else p
set_iv_lvl p iv lo =
    let q = record p { lo = insert iv p.lo } in
    if member iv p.lo
    then p
    else if member iv p.med
    then record q { med = erase iv p.med }
    else if member iv p.hi
    then record q { hi = erase iv p.hi }
    else if member iv p.nmi
    then record q { nmi = erase iv p.nmi }
    else q
set_iv_lvl p iv med =
    let q = record p { med = insert iv p.med } in
    if member iv p.med
    then p
    else if member iv p.lo
    then record q { lo = erase iv p.lo }
    else if member iv p.hi
    then record q { hi = erase iv p.hi }
    else if member iv p.nmi
    then record q { nmi = erase iv p.nmi }
    else q
set_iv_lvl p iv hi =
    let q = record p { hi = insert iv p.hi } in
    if member iv p.hi
    then p
    else if member iv p.lo
    then record q { lo = erase iv p.lo }
    else if member iv p.med
    then record q { med = erase iv p.med }
    else if member iv p.nmi
    then record q { nmi = erase iv p.nmi }
    else q
set_iv_lvl p iv nmi =
    let q = record p { nmi = insert iv p.nmi } in
    if member iv p.nmi
    then p
    else if member iv p.lo
    then record q { lo = erase iv p.lo }
    else if member iv p.med
    then record q { med = erase iv p.med }
    else if member iv p.hi
    then record q { hi = erase iv p.hi }
    else q

-- currentIntLvl: the highest level in execution.
unfoldable pub current_int_lvl : Status → IntLvl
current_int_lvl s =
    if s.nmiex
    then nmi
    else if s.hilvlex
    then hi
    else if s.medlvlex
    then med
    else if s.lolvlex
    then lo
    else Common.none

-- The first test of RETI that holds clears its flag.
unfoldable pub leave_level : Status → Status
leave_level s =
    if s.nmiex
    then record s { nmiex = false }
    else if s.hilvlex
    then record s { hilvlex = false }
    else if s.medlvlex
    then record s { medlvlex = false }
    else if s.lolvlex
    then record s { lolvlex = false }
    else s

-- A queue without its first vector.
abbrev rest_of : List ℕ → List ℕ
rest_of [] = []
rest_of (iv ∷ rest) = rest

-- What is served: its level, its vector, and the queues without it.
pub record Served : Type 0 where
  pub level : IntLvl
  pub iv : ℕ
  pub left : Pending

abbrev serve : IntLvl → Pending → List ℕ → Option Served
serve level left [] = none
serve level left (iv ∷ rest) = some (record { level = level; iv = iv; left = left })

abbrev some_pending : List ℕ → Bool
some_pending [] = false
some_pending (iv ∷ rest) = true

-- The ladder of processPendingInterrupts, up to the erasure from the queue.
unfoldable pub choose : Pending → Pmic → Option Served
unfolding current_int_lvl
choose p c =
    let running = lvl_code (current_int_lvl c.status) in
    if leb (lvl_code nmi) running
    then none
    else if some_pending p.nmi
    then serve nmi (record p { nmi = rest_of p.nmi }) p.nmi
    else if leb (lvl_code hi) running
    then none
    else if hilvlen c && some_pending p.hi
    then serve hi (record p { hi = rest_of p.hi }) p.hi
    else if leb (lvl_code med) running
    then none
    else if medlvlen c && some_pending p.med
    then serve med (record p { med = rest_of p.med }) p.med
    else if leb (lvl_code lo) running
    then none
    else if lolvlen c && some_pending p.lo
    then serve lo (record p { lo = rest_of p.lo }) p.lo
    else none
