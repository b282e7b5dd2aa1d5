-- ===== src/Block/Usart.antt =====
-- block/usart.h and block/usart.cpp: the serial port. What the link on the other side delivers and
-- accepts is input and output of the host, and stands as an argument of `on_event`; whether each call of
-- link_->configure() returns or throws is the field `link_accepts`. The baud rate that is only logged is
-- left out of `configure`.
pub mod Writes
pub mod Laws
pub mod Serial
mod Tests
use megumi.Base.{
  ℕ, ◌+◌, ◌-◌, ◌*◌, ◌/◌, ◌^◌, Bool, true, false, ◌&&◌, ◌||◌, if◌then◌else◌, ◌==◌, ltb, leb, not,
  nonzero, u8, u16, u32, ◌<<<◌, ◌>>>◌, ◌&&&◌, ◌|||◌, List, [], ◌∷◌, ◌++◌, Option, none, some,
  Result, ok, err, throws, ◌>>=◌,
}
use megumi.Block.Request.{Request, schedule, unschedule}
use megumi.Block.Tc.{request_if}
use megumi.Common.{
  IntLvl, lvl_code, lvl_of, field, set_field, has_bit, set_bit, flag, unsigned_to_signed, to_ℕ,
}
use megumi.Common

-- IV_RXC, IV_DRE, IV_TXC.
abbrev pub iv_rxc : ℕ
iv_rxc = 0

abbrev pub iv_dre : ℕ
iv_dre = 1

abbrev pub iv_txc : ℕ
iv_txc = 2

-- class USART. `baudscale` is an int8_t in two's complement. Of link_, `link_accepts` tells of each call
-- of its configure(), by the number of those before it, whether it returns, and `link_calls` counts them.
pub record Usart : Type 0 where
  pub status : ℕ
  pub rxc_intlvl : IntLvl
  pub dre_intlvl : IntLvl
  pub txc_intlvl : IntLvl
  pub ctrlb : ℕ
  pub ctrlc : ℕ
  pub baudrate : ℕ
  pub baudscale : ℕ
  pub rxb : ℕ
  pub txb : ℕ
  pub event_scheduled : Bool
  pub frame_sys_ticks : ℕ
  pub next_recv_tick : ℕ
  pub next_send_tick : ℕ
  pub link_accepts : ℕ → Bool
  pub link_calls : ℕ

-- The fields of the registers.
abbrev pub dreif : Usart → Bool
dreif t = has_bit 5 t.status

abbrev pub txcif : Usart → Bool
txcif t = has_bit 6 t.status

abbrev pub rxcif : Usart → Bool
rxcif t = has_bit 7 t.status

abbrev pub clk2x : Usart → Bool
clk2x t = has_bit 2 t.ctrlb

abbrev pub txen : Usart → Bool
txen t = has_bit 3 t.ctrlb

abbrev pub rxen : Usart → Bool
rxen t = has_bit 4 t.ctrlb

abbrev pub chsize : ℕ → ℕ
chsize c = field 0 3 c

abbrev pub pmode : ℕ → ℕ
pmode c = field 4 2 c

abbrev pub databits : Usart → ℕ
databits t = if chsize t.ctrlc == 7 then 9 else 5 + chsize t.ctrlc

pub data Parity : Type 0 where
  no even odd : Parity

abbrev pub parity : Usart → Parity
parity t = if pmode t.ctrlc == 2 then even else if pmode t.ctrlc == 3 then odd else no

abbrev pub parity_bits : Parity → ℕ
parity_bits no = 0
parity_bits even = 1
parity_bits odd = 1

abbrev pub stopbits : Usart → ℕ
stopbits t = field 3 1 t.ctrlc + 1

-- PER ticks per bit; a scale of 128 or more is negative.
abbrev pub bit_ticks : Usart → ℕ
bit_ticks t =
    (if clk2x t then 8 else 16)
    * (if ltb t.baudscale 128
        then (t.baudrate + 1) <<< t.baudscale
        else (t.baudrate >>> (256 - t.baudscale)) + 1)

-- baudrate(), from the frequency of the peripheral clock.
pub bauds : Usart → ℕ → ℕ
bauds t per_frequency = per_frequency / u32 (bit_ticks t)

unfoldable pub configure : Usart → Result Usart
configure t =
    let frame_bits = 1 + databits t + parity_bits (parity t) + stopbits t in
    if t.link_accepts t.link_calls
    then ok (record t {
      frame_sys_ticks = u32 (frame_bits * bit_ticks t);
      link_calls = t.link_calls + 1;
    })
    else err throws

-- Reading the data register acknowledges the reception.
pub get_io : Usart → ℕ → ℕ × Usart
get_io t addr =
    if addr == 0x00
    then (t.rxb, record t { status = set_bit 7 (set_bit 3 t.status false) false })
    else if addr == 0x01
    then (t.status, t)
    else if addr == 0x03
    then (
      (lvl_code t.rxc_intlvl <<< 4) ||| (lvl_code t.txc_intlvl <<< 2) ||| lvl_code t.dre_intlvl,
      t,
    )
    else if addr == 0x04
    then (t.ctrlb, t)
    else if addr == 0x05
    then (t.ctrlc, t)
    else if addr == 0x06
    then (t.baudrate &&& 0xff, t)
    else if addr == 0x07
    then (((t.baudrate >>> 4) &&& 0xf0) ||| (t.baudscale &&& 0xf), t)
    else (0, t)

-- TXB is taken only when the data register is empty.
pub txb_write : Usart → ℕ → Usart
txb_write t v = if dreif t then record t { txb = v; status = set_bit 5 t.status false } else t

pub status_write : Usart → ℕ → Usart
status_write t v =
    let received = set_bit 0 t.status (has_bit 0 v) in
    let transmitted = if has_bit 6 v then set_bit 6 received false else received in
    record t { status = if has_bit 7 v then set_bit 7 transmitted false else transmitted }

-- Pending flags follow their new levels.
pub ctrla_write : Usart → ℕ → Usart × List Request
ctrla_write t v =
    let rxc = lvl_of ((v >>> 4) &&& 0x3) in
    let txc = lvl_of ((v >>> 2) &&& 0x3) in
    let dre = lvl_of (v &&& 0x3) in
    (
      record t { rxc_intlvl = rxc; txc_intlvl = txc; dre_intlvl = dre },
      request_if (rxcif t) iv_rxc rxc
          ++ (request_if (txcif t) iv_txc txc ++ request_if (dreif t) iv_dre dre),
    )

-- The event runs while the transmitter or the receiver is on.
pub ctrlb_write : Usart → ℕ → Usart × List Request
ctrlb_write t v =
    let set = record t { ctrlb = v &&& 0x1f } in
    let on = txen set || rxen set in
    if t.event_scheduled
    then (if on then (set, []) else (record set { event_scheduled = false }, unschedule ∷ []))
    else (if on then (record set { event_scheduled = true }, schedule 1 ∷ []) else (set, []))

-- The values that CTRLC refuses are replaced: synchronous modes, reserved sizes and parities.
abbrev pub valid_ctrlc : ℕ → ℕ
valid_ctrlc v =
    let asynchronous = if not (field 6 2 v == 0) then set_field 6 2 v 0 else v in
    let sized =
      if ltb 3 (chsize asynchronous) && not (chsize asynchronous == 7)
      then set_field 0 3 asynchronous 3
      else asynchronous in
    if pmode sized == 1 then set_field 4 2 sized 0 else sized

pub ctrlc_write : Usart → ℕ → Result Usart
unfolding configure
ctrlc_write t v = configure (record t { ctrlc = valid_ctrlc v })

pub baudctrla_write : Usart → ℕ → Result Usart
unfolding configure
baudctrla_write t v =
    let b = (t.baudrate &&& 0xf00) ||| v in
    configure (record t { baudrate = b; baudscale = if b == 0 then 0 else t.baudscale })

pub baudctrlb_write : Usart → ℕ → Result Usart
unfolding configure
baudctrlb_write t v =
    let read = unsigned_to_signed 8 4 (v &&& 0xf) in
    let scale = if read == 248 then 0 else read in
    let b = (t.baudrate &&& 0x0ff) ||| ((v &&& 0xf0) <<< 4) in
    configure (record t { baudrate = b; baudscale = if b == 0 then 0 else scale })

pub set_io : Usart → ℕ → ℕ → Result (Usart × List Request)
unfolding txb_write status_write ctrla_write ctrlb_write ctrlc_write baudctrla_write baudctrlb_write
set_io t addr v =
    if addr == 0x00
    then ok (txb_write t v, [])
    else if addr == 0x01
    then ok (status_write t v, [])
    else if addr == 0x03
    then ok (ctrla_write t v)
    else if addr == 0x04
    then ok (ctrlb_write t v)
    else if addr == 0x05
    then (ctrlc_write t v >>= λ u. ok (u, []))
    else if addr == 0x06
    then (baudctrla_write t v >>= λ u. ok (u, []))
    else if addr == 0x07
    then (baudctrlb_write t v >>= λ u. ok (u, []))
    else ok (t, [])

pub execute_iv : Usart → ℕ → Usart
execute_iv t iv = if iv == iv_txc then record t { status = set_bit 6 t.status false } else t

-- The event is left as it was.
unfoldable pub reset : Usart → Result Usart
unfolding configure
reset t = do
  cleared ← configure (record t {
    status = 0x20;
    ctrlb = 0;
    ctrlc = 0;
    rxc_intlvl = Common.none;
    dre_intlvl = Common.none;
    txc_intlvl = Common.none;
    baudrate = 0;
    baudscale = 0;
    rxb = 0;
    txb = 0;
  })
  ok (record cleared { next_recv_tick = 0; next_send_tick = 0 })

-- The reception: a frame over one that was not read is lost, and marked as an overflow. `v & 0x100`
-- is assigned through a byte.
pub receive : Usart → ℕ → ℕ → Option ℕ → Usart × List Request
receive t tick per_scale none = (t, [])
receive t tick per_scale (some frame) =
    let v = frame &&& (2 ^ databits t - 1) in
    let later = record t { next_recv_tick = u32 (tick + t.frame_sys_ticks * per_scale) } in
    if rxcif t then (record later { status = set_bit 3 t.status true }, []) else (
      record later {
        rxb = u8 v;
        status = set_bit 7 (set_bit 0 t.status (flag (v &&& 0x100))) true;
      },
      request_if true iv_rxc t.rxc_intlvl,
    )

-- The frame that is offered to the link.
abbrev pub outgoing : Usart → ℕ
outgoing t = (t.txb ||| (to_ℕ (has_bit 0 t.ctrlb) <<< 8)) &&& (2 ^ databits t - 1)

pub transmit : Usart → ℕ → ℕ → Bool → Usart × List Request
transmit t tick per_scale false = (t, [])
transmit t tick per_scale true = (
  record t {
    next_send_tick = u32 (tick + t.frame_sys_ticks * per_scale);
    status = set_bit 6 (set_bit 5 t.status true) true;
  },
  request_if true iv_dre t.dre_intlvl ++ request_if true iv_txc t.txc_intlvl,
)

abbrev pub may_receive : Usart → ℕ → Bool
may_receive t tick = rxen t && leb t.next_recv_tick tick

abbrev pub may_send : Usart → ℕ → Bool
may_send t tick = txen t && (not (dreif t) && leb t.next_send_tick tick)

-- What the link answers in this event: recv() gives a frame or nothing, and send() accepts or not, or
-- either throws.
pub record Link : Type 0 where
  pub recv : Result (Option ℕ)
  pub send : Result Bool

-- The two parts of the event.
unfoldable pub take_frame : Usart → ℕ → ℕ → Link → Result (Usart × List Request)
unfolding receive
take_frame t tick per_scale link =
    if may_receive t tick then (link.recv >>= λ r. ok (receive t tick per_scale r)) else ok (t, [])

unfoldable pub give_frame : Usart → ℕ → ℕ → Link → Result (Usart × List Request)
unfolding transmit
give_frame t tick per_scale link =
    if may_send t tick
    then (link.send >>= λ sent. ok (transmit t tick per_scale sent))
    else ok (t, [])

pub on_event : Usart → ℕ → ℕ → Link → Result (Usart × List Request)
unfolding take_frame give_frame
on_event t tick per_scale link = do
  first ← take_frame t tick per_scale link
  second ← give_frame (first.0) tick per_scale link
  ok (second.0, first.1 ++ second.1)
