-- ===== src/Block/Tc/Count.antt =====
-- TC::onEvent of block/tc.cpp: one tick of the counter.
pub mod Period
use megumi.Base.{
  ℕ, ◌+◌, ◌-◌, Bool, true, false, ◌&&◌, if◌then◌else◌, ◌==◌, ltb, not, u8, u16, List, [], ◌++◌,
  inv8,
}
use megumi.Block.Request.{Request}
use megumi.Block.Tc.{
  Tc, wgmode, wgmode_frq, wgmode_dstop, wgmode_dsbottom, process_update, request_if, iv_ovf, iv_cca,
  iv_ccb, iv_ccc, iv_ccd,
}
use megumi.Common.{has_bit, set_bit}

-- `uint8_t top`: the high byte of the period is lost.
abbrev pub top : Tc → ℕ
top t = u8 (if wgmode t == wgmode_frq then t.value.cca else t.value.per)

-- The update at BOTTOM or TOP; a dual-slope mode then counts up.
abbrev pub turn : Tc → ℕ → Tc
turn t mode =
    let updated = process_update t in
    if ltb wgmode_dstop mode
    then record updated { ctrlf = set_bit 0 updated.ctrlf false }
    else updated

-- The new state, and whether the overflow interrupt is triggered.
count_down : Tc → Tc × Bool
count_down t =
    let from = if t.cnt == 0 then top t else t.cnt in
    let moved = record t { cnt = u16 (from + 65536 - 1) } in
    if moved.cnt == 0
    then (turn moved (wgmode t), not (wgmode t == wgmode_dstop))
    else (moved, false)

pub count_up : Tc → Tc × Bool
count_up t =
    let from = if t.cnt == top t then 0 else t.cnt in
    let moved = record t { cnt = u16 (from + 1) } in
    if moved.cnt == top t
    then (turn moved (wgmode t), not (wgmode t == wgmode_dsbottom))
    else (moved, false)

unfoldable pub count : Tc → Tc × Bool
unfolding count_down count_up process_update
count t = if has_bit 0 t.ctrlf then count_down t else count_up t

-- A flag is set and its vector requested when `hit` holds.
abbrev raise : Bool → ℕ → ℕ → ℕ
raise hit bit flags = if hit then set_bit bit flags true else flags

-- The overflow and the compare matches, in the order of the source.
interrupts : Tc → Bool → Tc × List Request
interrupts t overflow =
    let a = t.cnt == t.value.cca in
    let b = t.cnt == t.value.ccb in
    let c = not (t.kind == 0) && (t.cnt == t.value.ccc) in
    let d = not (t.kind == 0) && (t.cnt == t.value.ccd) in
    (
      record t {
        intflags = raise d 5 (raise c 4 (raise b 3 (raise a 2 (raise overflow 0 t.intflags))));
      },
      request_if overflow iv_ovf t.intlvl.ovf
          ++ (request_if a iv_cca t.intlvl.cca
              ++ (request_if b iv_ccb t.intlvl.ccb
                  ++ (request_if c iv_ccc t.intlvl.ccc ++ request_if d iv_ccd t.intlvl.ccd))),
    )

unfoldable pub on_event : Tc → Tc × List Request
unfolding count interrupts
on_event t = let (counted, overflow) = count t in interrupts counted overflow
