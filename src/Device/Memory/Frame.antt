-- ===== src/Device/Memory/Frame.antt =====
-- What a write to the data memory, and the calls of the blocks, leave as it is.
use megumi.Base.{
  ℕ, ◌-◌, ◌≡◌, refl, ◌∙◌, arith, ltb, List, [], ◌∷◌, get_elem?, Option, none, some, Result, ok, err,
  or_undefined, ◌>>=◌, IfOk, IfOk-if, IfOk-bind, IfOk-any, length,
}
use megumi.Block.Clk
use megumi.Block.Cpu.{ccp_state}
use megumi.Block.Request.{Request}
use megumi.Block.Tc
use megumi.Block.Usart
use megumi.Clock.{on_clock_config_change}
use megumi.Clock
use megumi.Device.Memory.{
  set_io_mem, block_set_io, set_data_mem, get_io_mem, block_get_io, get_data_mem, io_space,
  in_eeprom, in_sram,
}
use megumi.Device.{
  Device, Block, Peripheral, cpu_block, clk_block, osc_block, pmic_block, gpior_block, port_block,
  tc_block, usart_block, set_block, carry_out, carry_out_one,
}
use megumi.Stack.{sram_start}

-- The program, the tick and the configuration are the same.
abbrev pub Same : Device → Device → Type 0
Same d d' = (d'.machine.flash ≡ d.machine.flash) × (d'.clock.now ≡ d.clock.now) × (d'.conf ≡ d.conf)

pub Same-refl : (d : Device) → Same d d
Same-refl d = (refl, refl, refl)

pub Same-trans : (d e f : Device) → Same d e → Same e f → Same d f
Same-trans d e f p q = (q.0 ∙ p.0, q.1 ∙ p.1, q.2 ∙ p.2)

pub IfOk-Same : (d e : Device) (r : Result Device) → Same d e → IfOk (Same e) r → IfOk (Same d) r
IfOk-Same d e (ok f) p q = Same-trans d e f p q
IfOk-Same d e (err x) p q = _

-- One call after another.
pub IfOk-then :
    (d : Device) (m : Result Device) (f : Device → Result Device)
    → IfOk (Same d) m
    → ((e : Device) → IfOk (Same e) (f e))
    → IfOk (Same d) (m >>= f)
IfOk-then d m f p next = IfOk-bind (Same d) (Same d) m f p (λ e q. IfOk-Same d e (f e) q (next e))

carry_out_one-Same :
    (d : Device) (i : ℕ) (b : Block) (r : Request) → IfOk (Same d) (carry_out_one d i b r)
unfolding carry_out_one Clock.schedule Clock.unschedule
carry_out_one-Same d i b (Request.schedule ticks) = (refl, refl, refl)
carry_out_one-Same d i b Request.unschedule = (refl, refl, refl)
carry_out_one-Same d i b (Request.set_period p) = (refl, refl, refl)
carry_out_one-Same d i b (Request.set_iv_lvl iv lvl) = (refl, refl, refl)
carry_out_one-Same d i b Request.clock_changed =
    IfOk-bind (λ events. Unit) (Same d) (on_clock_config_change d.clk d.clock.now d.clock.events) _
      (IfOk-any _) (λ events u. (refl, refl, refl))

pub carry_out-Same :
    (d : Device) (i : ℕ) (b : Block) (rs : List Request) → IfOk (Same d) (carry_out d i b rs)
unfolding carry_out
carry_out-Same d i b [] = Same-refl d
carry_out-Same d i b (r ∷ rs) =
    IfOk-then d (carry_out_one d i b r) (λ e. carry_out e i b rs) (carry_out_one-Same d i b r)
      (λ e. carry_out-Same e i b rs)

-- After a change of a block.
pub carry_out_after :
    (d e : Device) (i : ℕ) (b : Block) (rs : List Request)
    → Same d e
    → IfOk (Same d) (carry_out e i b rs)
carry_out_after d e i b rs p = IfOk-Same d e (carry_out e i b rs) p (carry_out-Same e i b rs)

block_set_io_by :
    (d : Device) (i : ℕ) (b : Block) (addr v : ℕ) (p : Peripheral)
    → b.peripheral ≡ p
    → IfOk (Same d) (block_set_io d i b addr v)
unfolding block_set_io
block_set_io_by d i b addr v cpu_block e = rw (e, block_set_io) (refl, refl, refl)
block_set_io_by d i b addr v clk_block e =
    rw (e, block_set_io)
      (IfOk-bind (λ r. Unit) (Same d) (Clk.set_io d.clk d.osc (ccp_state d.machine.core.cpu) addr v)
        _ (IfOk-any _)
        (λ r u. carry_out_after d (record d { clk = r.0 }) i b r.1 (refl, refl, refl)))
block_set_io_by d i b addr v osc_block e = rw (e, block_set_io) (refl, refl, refl)
block_set_io_by d i b addr v pmic_block e = rw (e, block_set_io) (refl, refl, refl)
block_set_io_by d i b addr v gpior_block e = rw (e, block_set_io) (refl, refl, refl)
block_set_io_by d i b addr v (port_block p) e = rw (e, block_set_io) (refl, refl, refl)
block_set_io_by d i b addr v (tc_block t) e =
    rw (e, block_set_io)
      (IfOk-bind (λ r. Unit) (Same d) (Tc.set_io t addr v) _ (IfOk-any _)
        (λ r u. carry_out_after d (set_block d i b (tc_block r.0)) i b r.1 (refl, refl, refl)))
block_set_io_by d i b addr v (usart_block t) e =
    rw (e, block_set_io)
      (IfOk-bind (λ r. Unit) (Same d) (Usart.set_io t addr v) _ (IfOk-any _)
        (λ r u. carry_out_after d (set_block d i b (usart_block r.0)) i b r.1 (refl, refl, refl)))

at_block :
    (d : Device) (addr v i : ℕ) (b : Option Block)
    → IfOk (Same d) (or_undefined b >>= λ b. block_set_io d i b (addr - b.io_addr) v)
at_block d addr v i none = _
at_block d addr v i (some b) = block_set_io_by d i b (addr - b.io_addr) v b.peripheral refl

at_place :
    (d : Device) (addr v : ℕ) (place : Option ℕ)
    → IfOk (Same d) (elim place [
      | none ↦ ok d
      | some i ↦
          (or_undefined (get_elem? d.blocks i) >>= λ b. block_set_io d i b (addr - b.io_addr) v)
    ])
at_place d addr v none = Same-refl d
at_place d addr v (some i) = at_block d addr v i (get_elem? d.blocks i)

pub set_io_mem-Same : (d : Device) (addr v : ℕ) → IfOk (Same d) (set_io_mem d addr v)
unfolding set_io_mem
set_io_mem-Same d addr v =
    IfOk-if (Same d) (ltb addr io_space) _ _ (at_place d addr v (d.io_blocks addr)) _

pub set_data_mem-Same : (d : Device) (addr v : ℕ) → IfOk (Same d) (set_data_mem d addr v)
unfolding set_data_mem
set_data_mem-Same d addr v = IfOk-if (Same d) (ltb addr io_space) _ _ (set_io_mem-Same d addr v) (
    IfOk-if (Same d) (in_eeprom d addr) _ _ (Same-refl d) (
      IfOk-if (Same d) (in_sram d addr) _ _
        (IfOk-if (Same d) (ltb (addr - sram_start) (length d.machine.sram)) _ _ (refl, refl, refl)
          _)
        (Same-refl d)))

pub get_io_mem-Same : (d : Device) (addr : ℕ) → IfOk (λ r. Same d r.1) (get_io_mem d addr)
unfolding get_io_mem block_get_io
get_io_mem-Same d addr = ground arith

pub get_data_mem-Same : (d : Device) (addr : ℕ) → IfOk (λ r. Same d r.1) (get_data_mem d addr)
unfolding get_data_mem get_io_mem block_get_io
get_data_mem-Same d addr = ground arith
