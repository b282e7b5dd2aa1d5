-- ===== src/Device/Sample.antt =====
-- A device for the tests: the members, one timer and one serial port; a program of a few words and
-- sixteen bytes of SRAM.
use megumi.Base.{
  ok, ℕ, Bool, ◌+◌, ◌&&◌, if◌then◌else◌, ltb, leb, List, [], ◌∷◌, ◌++◌, replicate, Option, none,
  some, true, false,
}
use megumi.Block.Clk.{Clk, rc2m, ulp}
use megumi.Block.Osc.{Osc}
use megumi.Block.Osc
use megumi.Block.Tc.{Tc}
use megumi.Block.Usart.{Usart, Link}
use megumi.Common
use megumi.Core.Sample.{sample_regs, sample_cpu}
use megumi.Device.Connect.{members}
use megumi.Device.Connect.X128a1.{Raw}
use megumi.Device.{Device, tc_block, usart_block}

abbrev pub osc : Osc
osc = record {
  ctrl = 1;
  status = 1;
  xoscctrl = 0;
  xoscfail = 0;
  rc32kcal = 0x55;
  pllsrc = Osc.rc2m;
  pllfac = 0;
  dfllctrl = 0;
}

abbrev pub clk : Clk
clk = record {
  sclk = rc2m;
  psctrl = 0;
  locked = false;
  rtcsrc = ulp;
  rtcen = false;
  prescaler_a = 1;
  prescaler_b = 1;
  prescaler_c = 1;
  f_sys = 2000000;
}

abbrev pub timer : Tc
timer = record {
  kind = 0;
  prescaler = 1;
  ctrlb = 0;
  ctrlc = 0;
  intlvl = record {
    ovf = Common.hi;
    error = Common.none;
    cca = Common.none;
    ccb = Common.none;
    ccc = Common.none;
    ccd = Common.none;
  };
  ctrlf = 0;
  ctrlg = 0;
  intflags = 0;
  temp = 0;
  cnt = 2;
  value = record { per = 3; cca = 100; ccb = 100; ccc = 100; ccd = 100 };
  buffer = record { per = 3; cca = 100; ccb = 100; ccc = 100; ccd = 100 };
  event_scheduled = true;
}

abbrev pub serial : Usart
serial = record {
  status = 0x20;
  rxc_intlvl = Common.lo;
  dre_intlvl = Common.none;
  txc_intlvl = Common.none;
  ctrlb = 0x18;
  ctrlc = 0x03;
  baudrate = 0;
  baudscale = 0;
  rxb = 0;
  txb = 0;
  event_scheduled = false;
  frame_sys_ticks = 160;
  link_accepts = λ n. true;
  link_calls = 0;
  next_recv_tick = 0;
  next_send_tick = 0;
}

abbrev pub raw : Raw
raw = record { port = record { dir = 0; out = 0 }; usart = serial; tc = timer }

abbrev pub quiet : ℕ → Link
quiet place = record { recv = ok none; send = ok true }

-- LDI r16, 0x41; STS 0x2005, r16; LDD r17, Z+0; RJMP .-2
abbrev pub program : List ℕ
program = 0xe401 ∷ 0x9300 ∷ 0x2005 ∷ 0x8110 ∷ 0xcfff ∷ []

abbrev within : ℕ → ℕ → ℕ → Bool
within k from size = leb from k && ltb k (from + size)

abbrev pub io_blocks : ℕ → Option ℕ
io_blocks k =
    if within k 0x30 16
    then some 0
    else if within k 0x40 8
    then some 1
    else if within k 0x50 8
    then some 2
    else if within k 0xa0 3
    then some 3
    else if within k 0 16
    then some 4
    else if within k 0x800 0x40
    then some 5
    else if within k 0x8a0 8
    then some 6
    else none

abbrev pub iv_blocks : ℕ → Option ℕ
iv_blocks k =
    if within k 1 1
    then some 2
    else if within k 14 6
    then some 5
    else if within k 25 3
    then some 6
    else none

abbrev pub bench : Device
bench = record {
  conf = record {
    flash_size = 10;
    flash_boot_start = 8;
    eeprom_size = 0x800;
    sram_size = 16;
    exsram_start = 0x2010;
    exsram_size = 0;
  };
  machine = record {
    core = record {
      regfile = sample_regs;
      cpu = record sample_cpu { pc = 0; sp = 0x200f; ccp_spm_cycles = 0 };
    };
    sram = replicate 16 0;
    flash = program;
    pmic = record {
      status = record { lolvlex = false; medlvlex = false; hilvlex = false; nmiex = false };
      ctrl = 7;
    };
  };
  clk = clk;
  osc = osc;
  gpior = record { bytes = replicate 16 0 };
  blocks =
      members
      ++ (record {
        peripheral = tc_block timer;
        io_addr = 0x800;
        io_size = 0x40;
        iv_base = 14;
        iv_count = 6;
      }
          ∷ record {
            peripheral = usart_block serial;
            io_addr = 0x8a0;
            io_size = 8;
            iv_base = 25;
            iv_count = 3;
          }
          ∷ []);
  io_blocks = io_blocks;
  iv_blocks = iv_blocks;
  pending = record { lo = []; med = []; hi = []; nmi = [] };
  clock = record { now = 0; events = [] };
  instruction_cycles = 0;
  interrupt_wait_instruction = true;
  breaked = false;
}
