-- ===== src/Interrupt/Tests.antt =====
-- Runs of the interrupt queues.
use megumi.Base.{ℕ, ◌≡◌, ◌≤◌, ◌<◌, refl, arith, true, false, [], ◌∷◌, some, none}
use megumi.Block.Pmic.{Status, Pmic}
use megumi.Common.{med, hi, lvl_code}
use megumi.Interrupt.{Pending, Served, set_iv_lvl, choose, current_int_lvl}
use megumi.Interrupt.Choice.{IsBest, choose-IsBest, choose_none, eligible}
use megumi.Interrupt.Queue.{IsPending, level_of, set_iv_lvl-level_of, set_iv_lvl-IsPending}
use megumi.IvSet.{member}

abbrev waiting : Pending
waiting = record { lo = 3 ∷ []; med = 4 ∷ 9 ∷ []; hi = []; nmi = [] }

waiting-IsPending : IsPending waiting
unfolding member
waiting-IsPending = record {
  once = λ j. ground arith;
  lo_in_order = ground arith;
  med_in_order = ground arith;
  hi_in_order = tt;
  nmi_in_order = tt;
}

abbrev idle : Status
idle = record { lolvlex = false; medlvlex = false; hilvlex = false; nmiex = false }

abbrev all_levels : Pmic
all_levels = record { status = idle; ctrl = 7 }

abbrev served : Served
served = record { level = med; iv = 4; left = record waiting { med = 9 ∷ [] } }

chosen : choose waiting all_levels ≡ some served
unfolding choose
chosen = refl

choose-IsBest_example :
    IsBest waiting all_levels served × ((j : ℕ) → member j (4 ∷ 9 ∷ []) ≡ true → 4 ≤ j)
choose-IsBest_example = choose-IsBest waiting all_levels served waiting-IsPending chosen

abbrev masked : Pmic
masked = record { status = record idle { medlvlex = true }; ctrl = 7 }

nothing : choose waiting masked ≡ none
unfolding choose
nothing = refl

choose_none_example : eligible waiting masked med ≡ false
choose_none_example = choose_none waiting masked nothing med

lowest : lvl_code (current_int_lvl idle) < lvl_code hi
unfolding current_int_lvl
lowest = omega arith

-- Vector 9 moves to the high level, and vector 4 stays.
set_iv_lvl-level_of_example : level_of (set_iv_lvl waiting 9 hi) 4 ≡ level_of waiting 4
set_iv_lvl-level_of_example =
    set_iv_lvl-level_of waiting 9 4 hi (waiting-IsPending.once 9) (waiting-IsPending.once 4)

set_iv_lvl-IsPending_example : IsPending (set_iv_lvl waiting 9 hi)
set_iv_lvl-IsPending_example = set_iv_lvl-IsPending waiting 9 hi waiting-IsPending
