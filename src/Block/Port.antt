-- ===== src/Block/Port.antt =====
-- block/port.h and block/port.cpp: an I/O port, with registers that set, clear and toggle bits.
pub mod Laws
mod Tests
use megumi.Base.{ℕ, ◌-◌, if◌then◌else◌, ◌==◌, ltb, leb, inv8, ◌&&◌, ◌||◌, ◌&&&◌, ◌|||◌, ◌^^^◌}

pub record Port : Type 0 where
  pub dir : ℕ
  pub out : ℕ

-- IN shows the driven pins; the others read 0.
pub get_io : Port → ℕ → ℕ
get_io p addr =
    if ltb addr 0x04
    then p.dir
    else if ltb addr 0x08
    then p.out
    else if addr == 0x08
    then (p.out &&& p.dir) ||| (0 &&& inv8 p.dir)
    else 0

pub set_io : Port → ℕ → ℕ → Port
set_io p addr v =
    if addr == 0x00
    then record p { dir = v }
    else if addr == 0x01
    then record p { dir = p.dir ||| v }
    else if addr == 0x02
    then record p { dir = p.dir &&& inv8 v }
    else if addr == 0x03
    then record p { dir = p.dir ^^^ v }
    else if addr == 0x04
    then record p { out = v }
    else if addr == 0x05
    then record p { out = p.out ||| v }
    else if addr == 0x06
    then record p { out = p.out &&& inv8 v }
    else if addr == 0x07
    then record p { out = p.out ^^^ v }
    else p

pub reset : Port → Port
reset p = record { dir = 0; out = 0 }
