-- ===== src/Block/Tc.antt =====
-- block/tc.h and block/tc.cpp: the 16-bit timer/counter. The registers and their access stand
-- here, the counting in the child `Count`.
pub mod Count
pub mod Laws
mod Tests
use megumi.Base.{
  ℕ, ◌+◌, ◌-◌, ◌*◌, ◌^◌, Bool, true, false, ◌&&◌, ◌||◌, if◌then◌else◌, ◌==◌, ltb, nonzero, not,
  inv8, u16, ◌<<<◌, ◌>>>◌, ◌&&&◌, ◌|||◌, Result, ok, err, throws, undefined, List, [], ◌∷◌, ◌++◌,
  Option, some, get_elem?, or_undefined, ◌>>=◌,
}
use megumi.Block.Request.{Request, schedule, unschedule, set_period, set_iv_lvl}
use megumi.Common.{IntLvl, lvl_code, lvl_of, set_bit, set_field, has_bit, field}
use megumi.Common

-- The interrupt vectors IV_OVF, IV_ERR, IV_CCA to IV_CCD, and IV_COUNT.
abbrev pub iv_ovf : ℕ
iv_ovf = 0

abbrev pub iv_err : ℕ
iv_err = 1

abbrev pub iv_cca : ℕ
iv_cca = 2

abbrev pub iv_ccb : ℕ
iv_ccb = 3

abbrev pub iv_ccc : ℕ
iv_ccc = 4

abbrev pub iv_ccd : ℕ
iv_ccd = 5

-- WGMODE_FRQ, WGMODE_DSTOP and WGMODE_DSBOTTOM.
abbrev pub wgmode_frq : ℕ
wgmode_frq = 1

abbrev pub wgmode_dstop : ℕ
wgmode_dstop = 5

abbrev pub wgmode_dsbottom : ℕ
wgmode_dsbottom = 7

-- The five buffered registers, and their buffers.
pub record Channels : Type 0 where
  pub per : ℕ
  pub cca : ℕ
  pub ccb : ℕ
  pub ccc : ℕ
  pub ccd : ℕ

pub record Levels : Type 0 where
  pub ovf : IntLvl
  pub error : IntLvl
  pub cca : IntLvl
  pub ccb : IntLvl
  pub ccc : IntLvl
  pub ccd : IntLvl

-- `kind` is type_: 0 for TCx0 and 1 for TCx1.
pub record Tc : Type 0 where
  pub kind : ℕ
  pub prescaler : ℕ
  pub ctrlb : ℕ
  pub ctrlc : ℕ
  pub intlvl : Levels
  pub ctrlf : ℕ
  pub ctrlg : ℕ
  pub intflags : ℕ
  pub temp : ℕ
  pub cnt : ℕ
  pub value : Channels
  pub buffer : Channels
  pub event_scheduled : Bool

-- iv_count(): the vectors of the block, from its base.
abbrev pub iv_count : Tc → ℕ
iv_count t = if t.kind == 0 then 6 else iv_ccc

abbrev pub wgmode : Tc → ℕ
wgmode t = field 0 2 t.ctrlb

-- Reading CTRLA stores the selector number over the prescaler, and returns 0.
clksel_read : ℕ → Result ℕ
clksel_read p =
    if p == 0
    then ok 0
    else if p == 1
    then ok 1
    else if p == 2
    then ok 2
    else if p == 4
    then ok 3
    else if p == 8
    then ok 4
    else if p == 64
    then ok 5
    else if p == 256
    then ok 6
    else if p == 1024
    then ok 7
    else err throws

-- Reading a low byte latches the high byte in TEMP.
abbrev read_low : Tc → ℕ → Result (ℕ × Tc)
read_low t x = ok (x &&& 0xff, record t { temp = (x >>> 8) &&& 0xff })

pub read_value : Tc → ℕ → Result (ℕ × Tc)
read_value t addr =
    if addr == 0x20
    then read_low t t.cnt
    else if addr == 0x26
    then read_low t t.value.per
    else if addr == 0x28
    then read_low t t.value.cca
    else if addr == 0x2a
    then read_low t t.value.ccb
    else if addr == 0x2c
    then read_low t t.value.ccc
    else if addr == 0x2e
    then read_low t t.value.ccd
    else if addr == 0x36
    then read_low t t.buffer.per
    else if addr == 0x38
    then read_low t t.buffer.cca
    else if addr == 0x3a
    then read_low t t.buffer.ccb
    else if addr == 0x3c
    then read_low t t.buffer.ccc
    else if addr == 0x3e
    then read_low t t.buffer.ccd
    else ok (0, t)

-- The high bytes: 0x21, 0x27 to 0x2f odd, and 0x37 to 0x3f odd.
abbrev is_high : ℕ → Bool
is_high addr =
    addr == 0x21
    || addr == 0x27
    || addr == 0x29
    || addr == 0x2b
    || addr == 0x2d
    || addr == 0x2f
    || addr == 0x37
    || addr == 0x39
    || addr == 0x3b
    || addr == 0x3d
    || addr == 0x3f

pub get_io : Tc → ℕ → Result (ℕ × Tc)
unfolding clksel_read read_value
get_io t addr =
    if addr == 0x00
    then (clksel_read t.prescaler >>= λ p. ok (0, record t { prescaler = p }))
    else if addr == 0x01
    then ok (t.ctrlb, t)
    else if addr == 0x02
    then ok (t.ctrlc, t)
    else if addr == 0x06
    then ok ((lvl_code t.intlvl.error <<< 2) ||| lvl_code t.intlvl.ovf, t)
    else if addr == 0x07
    then ok (
      (lvl_code t.intlvl.ccd <<< 6)
          ||| (lvl_code t.intlvl.ccc <<< 4)
          ||| (lvl_code t.intlvl.ccb <<< 2)
          ||| lvl_code t.intlvl.cca,
      t,
    )
    else if addr == 0x08 || addr == 0x09
    then ok (t.ctrlf, t)
    else if addr == 0x0a || addr == 0x0b
    then ok (t.ctrlg, t)
    else if addr == 0x0c
    then ok (t.intflags, t)
    else if addr == 0x0f || is_high addr
    then ok (t.temp, t)
    else read_value t addr

-- The event is left as it was.
pub reset : Tc → Tc
reset t = record {
  kind = t.kind;
  prescaler = 0;
  ctrlb = 0;
  ctrlc = 0;
  intlvl = record {
    ovf = Common.none;
    error = Common.none;
    cca = Common.none;
    ccb = Common.none;
    ccc = Common.none;
    ccd = Common.none;
  };
  ctrlf = 0;
  ctrlg = 0;
  intflags = 0;
  temp = 0;
  cnt = 0;
  value = record { per = 0; cca = 0; ccb = 0; ccc = 0; ccd = 0 };
  buffer = record { per = 0; cca = 0; ccb = 0; ccc = 0; ccd = 0 };
  event_scheduled = t.event_scheduled;
}

-- Buffered values whose BV flag is set are taken, and the flags cleared.
unfoldable pub process_update : Tc → Tc
process_update t = record t {
  value = record {
    per = if has_bit 0 t.ctrlg then t.buffer.per else t.value.per;
    cca = if has_bit 1 t.ctrlg then t.buffer.cca else t.value.cca;
    ccb = if has_bit 2 t.ctrlg then t.buffer.ccb else t.value.ccb;
    ccc = if has_bit 3 t.ctrlg then t.buffer.ccc else t.value.ccc;
    ccd = if has_bit 4 t.ctrlg then t.buffer.ccd else t.value.ccd;
  };
  ctrlg = 0;
}

-- LUPD locks the UPDATE command.
pub update_command : Tc → Tc
unfolding process_update
update_command t = if has_bit 1 t.ctrlf then t else process_update t

pub restart_command : Tc → Tc
restart_command t = record t { ctrlf = set_bit 0 t.ctrlf false; ctrlc = 0 }

-- RESET works only on a stopped timer.
pub reset_command : Tc → Tc
unfolding reset
reset_command t = if t.prescaler == 0 then reset t else t

abbrev prescalers : List ℕ
prescalers = 0 ∷ 1 ∷ 2 ∷ 4 ∷ 8 ∷ 64 ∷ 256 ∷ 1024 ∷ []

-- The event follows the prescaler: unscheduled at 0, scheduled, or given a new period.
select_clock : Tc → ℕ → Tc × List Request
select_clock t p =
    if p == 0
    then (if t.event_scheduled
        then (record t { prescaler = p; event_scheduled = false }, unschedule ∷ [])
        else (record t { prescaler = p }, []))
    else (if t.event_scheduled
        then (record t { prescaler = p }, set_period p ∷ [])
        else (record t { prescaler = p; event_scheduled = true }, schedule p ∷ []))

-- CTRLA: `prescalers[v]` is out of range for a value above 7 with bit 3 clear.
ctrla_write : Tc → ℕ → Result (Tc × List Request)
unfolding select_clock
ctrla_write t v =
    if nonzero (v &&& 0x08)
    then ok (t, [])
    else (or_undefined (get_elem? prescalers v) >>= λ p. ok (select_clock t p))

ctrlb_write : Tc → ℕ → Tc
ctrlb_write t v =
    let enabled = if nonzero (v &&& 0xf0) then v &&& 0x0f else v in
    let x = enabled &&& 0xf7 in
    record t { ctrlb = if field 0 2 x == 2 || field 0 2 x == 4 then set_field 0 2 x 0 else x }

abbrev pub request_if : Bool → ℕ → IntLvl → List Request
request_if b iv lvl = if b then set_iv_lvl iv lvl ∷ [] else []

intctrla_write : Tc → ℕ → Tc × List Request
intctrla_write t v =
    let l = record (t.intlvl) { ovf = lvl_of (v &&& 0x3); error = lvl_of ((v >>> 2) &&& 0x3) } in
    (
      record t { intlvl = l },
      request_if (has_bit 0 t.intflags) iv_ovf l.ovf
          ++ request_if (has_bit 1 t.intflags) iv_err l.error,
    )

-- Pending flags of the channels update the vector IV_ERR.
intctrlb_write : Tc → ℕ → Tc × List Request
intctrlb_write t v =
    let two = record (t.intlvl) { cca = lvl_of (v &&& 0x3); ccb = lvl_of ((v >>> 2) &&& 0x3) } in
    let four = record two { ccc = lvl_of ((v >>> 4) &&& 0x3); ccd = lvl_of ((v >>> 6) &&& 0x3) } in
    let l : Levels = if t.kind == 0 then two else four in
    let more = not (t.kind == 0) in
    (
      record t { intlvl = l },
      request_if (has_bit 2 t.intflags) iv_err l.cca
          ++ (request_if (has_bit 3 t.intflags) iv_err l.ccb
              ++ (request_if (more && has_bit 4 t.intflags) iv_err l.ccc
                  ++ request_if (more && has_bit 5 t.intflags) iv_err l.ccd)),
    )

-- CTRLFSET: the bits are set before the command runs.
ctrlfset_write : Tc → ℕ → Tc
unfolding update_command restart_command reset_command
ctrlfset_write t v =
    let marked = record t { ctrlf = t.ctrlf ||| (v &&& 0x03) } in
    let cmd = (v >>> 2) &&& 3 in
    if cmd == 1
    then update_command marked
    else if cmd == 2
    then restart_command marked
    else if cmd == 3
    then reset_command marked
    else marked

-- A write of a high byte stores the word with the low byte from TEMP.
pub value_write : Tc → ℕ → ℕ → Tc
value_write t addr v =
    let w = t.temp ||| (v <<< 8) in
    if addr == 0x21
    then record t { cnt = w }
    else if addr == 0x27
    then record t { value = record (t.value) { per = w } }
    else if addr == 0x29
    then record t { value = record (t.value) { cca = w } }
    else if addr == 0x2b
    then record t { value = record (t.value) { ccb = w } }
    else if addr == 0x2d
    then record t { value = record (t.value) { ccc = w } }
    else if addr == 0x2f
    then record t { value = record (t.value) { ccd = w } }
    else if addr == 0x37
    then record t { buffer = record (t.buffer) { per = w }; ctrlg = set_bit 0 t.ctrlg true }
    else if addr == 0x39
    then record t { buffer = record (t.buffer) { cca = w }; ctrlg = set_bit 1 t.ctrlg true }
    else if addr == 0x3b
    then record t { buffer = record (t.buffer) { ccb = w }; ctrlg = set_bit 2 t.ctrlg true }
    else if addr == 0x3d
    then record t { buffer = record (t.buffer) { ccc = w }; ctrlg = set_bit 3 t.ctrlg true }
    else if addr == 0x3f
    then record t { buffer = record (t.buffer) { ccd = w }; ctrlg = set_bit 4 t.ctrlg true }
    else t

-- TEMP itself and the low bytes: 0x20, 0x26 to 0x2e even, and 0x36 to 0x3e even.
abbrev is_low : ℕ → Bool
is_low addr =
    addr == 0x0f
    || addr == 0x20
    || addr == 0x26
    || addr == 0x28
    || addr == 0x2a
    || addr == 0x2c
    || addr == 0x2e
    || addr == 0x36
    || addr == 0x38
    || addr == 0x3a
    || addr == 0x3c
    || addr == 0x3e

pub set_io : Tc → ℕ → ℕ → Result (Tc × List Request)
unfolding ctrla_write ctrlb_write intctrla_write intctrlb_write ctrlfset_write value_write
set_io t addr v =
    if addr == 0x00
    then ctrla_write t v
    else if addr == 0x01
    then ok (ctrlb_write t v, [])
    else if addr == 0x02
    then ok (record t { ctrlc = v &&& 0x0f }, [])
    else if addr == 0x06
    then ok (intctrla_write t v)
    else if addr == 0x07
    then ok (intctrlb_write t v)
    else if addr == 0x08
    then ok (record t { ctrlf = t.ctrlf &&& inv8 (v &&& 0x03) }, [])
    else if addr == 0x09
    then ok (ctrlfset_write t v, [])
    else if addr == 0x0a
    then ok (record t { ctrlg = t.ctrlg &&& inv8 (v &&& 0x1f) }, [])
    else if addr == 0x0b
    then ok (record t { ctrlg = t.ctrlg ||| (v &&& 0x1f) }, [])
    else if addr == 0x0c
    then ok (record t { intflags = t.intflags &&& inv8 v }, [])
    else if is_low addr
    then ok (record t { temp = v }, [])
    else ok (value_write t addr v, [])

-- An executed vector clears its flag.
pub execute_iv : Tc → ℕ → Tc
execute_iv t iv = if ltb iv 6 then record t { intflags = set_bit iv t.intflags false } else t
