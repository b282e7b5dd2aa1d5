-- ===== src/Device/Execute/Kinds.antt =====
-- What the instructions leave as it is, by their kinds.
use megumi.Base.{
  ℕ, ◌≡◌, refl, arith, Bool, Result, ok, err, ◌>>=◌, IfOk, IfOk-bind, IfOk-any, inv8, ◌&&&◌, ◌|||◌,
  ◌^^^◌,
}
use megumi.Core.{Core, set_reg}
use megumi.Opcode.Arith.{rd_of}
use megumi.Device.Execute.{on_core, on_machine}
use megumi.Device.Flash
use megumi.Device.Flow
use megumi.Device.Io
use megumi.Device.Loads
use megumi.Device.Loads.{second_word}
use megumi.Device.Memory.{get_data_mem, get_io_mem, set_data_mem, set_io_mem}
use megumi.Device.Memory.Frame.{
  Same, IfOk-Same, set_io_mem-Same, set_data_mem-Same, get_io_mem-Same, get_data_mem-Same,
}
use megumi.Device.Stores
use megumi.Device.{Device, set_core, step_pc}
use megumi.Stack
use megumi.Stack.{Machine}

-- What an instruction leaves.
abbrev pub Kept : Device → Result (Device × ℕ) → Type 0
Kept d = IfOk (λ r. Same d r.0)

on_core-Kept : (d : Device) (r : Core × ℕ) → Kept d (on_core d r)
on_core-Kept d r = (refl, refl, refl)

-- The instructions on the stack leave the flash.
abbrev KeepsFlash : Machine → Result (Machine × ℕ) → Type 0
KeepsFlash m = IfOk (λ r. r.0.flash ≡ m.flash)

pub on_machine-Kept :
    (d : Device) (r : Result (Machine × ℕ)) → KeepsFlash d.machine r → Kept d (on_machine d r)
on_machine-Kept d (ok r) p = (p, refl, refl)
on_machine-Kept d (err e) p = _

pub stack-KeepsFlash :
    (small : Bool) (m : Machine) (opcode : ℕ)
    → KeepsFlash m (Stack.op_call small m opcode)
      × KeepsFlash m (Stack.op_rcall small m opcode)
      × KeepsFlash m (Stack.op_icall small m opcode)
      × KeepsFlash m (Stack.op_eicall small m opcode)
      × KeepsFlash m (Stack.op_ret small m opcode)
      × KeepsFlash m (Stack.op_reti small m opcode)
      × KeepsFlash m (Stack.op_push m opcode)
      × KeepsFlash m (Stack.op_pop m opcode)
unfolding Stack.op_call Stack.op_rcall Stack.op_icall Stack.op_eicall Stack.op_ret Stack.op_reti
    Stack.op_push Stack.op_pop
stack-KeepsFlash small m opcode = ground arith

-- A write, and what follows it in the registers.
written :
    (d : Device) (m : Result Device) (last : Device → Device × ℕ)
    → IfOk (Same d) m
    → ((e : Device) → Same e (last e).0)
    → Kept d (m >>= λ e. ok (last e))
written d (ok e) last p next = IfOk-Same d e (ok (last e).0) p (next e)
written d (err e) last p next = _

load-Same : (d : Device) (opcode addr : ℕ) → IfOk (Same d) (Loads.load d opcode addr)
load-Same d opcode addr = loaded (get_data_mem d addr) (get_data_mem-Same d addr)
  where
    loaded :
        (m : Result (ℕ × Device))
        → IfOk (λ r. Same d r.1) m
        → IfOk (Same d) (m >>= λ r. ok (set_core r.1 (set_reg r.1.machine.core (rd_of opcode) r.0)))
    loaded (ok r) p = p
    loaded (err e) p = _

-- A load or a store at an address, and the registers afterwards.
loads :
    (d : Device) (opcode addr : ℕ) (last : Device → Device × ℕ)
    → ((e : Device) → Same e (last e).0)
    → Kept d (Loads.load d opcode addr >>= λ e. ok (last e))
loads d opcode addr last next =
    written d (Loads.load d opcode addr) last (load-Same d opcode addr) next

stores :
    (d : Device) (opcode addr : ℕ) (last : Device → Device × ℕ)
    → ((e : Device) → Same e (last e).0)
    → Kept d (Stores.store d opcode addr >>= λ e. ok (last e))
stores d opcode addr last next =
    written d (Stores.store d opcode addr) last (set_data_mem-Same d addr _) next

same : (e : Device) → Same e (step_pc e)
same e = (refl, refl, refl)

pub loads-Kept :
    (d : Device) (opcode : ℕ)
    → Kept d (Loads.op_lds d opcode)
      × Kept d (Loads.op_ld d opcode)
      × Kept d (Loads.op_ld_x_inc d opcode)
      × Kept d (Loads.op_ld_dec_x d opcode)
      × Kept d (Loads.op_ld_y d opcode)
      × Kept d (Loads.op_ld_y_inc d opcode)
      × Kept d (Loads.op_ld_dec_y d opcode)
      × Kept d (Loads.op_ld_z d opcode)
      × Kept d (Loads.op_ld_z_inc d opcode)
      × Kept d (Loads.op_ld_dec_z d opcode)
unfolding Loads.op_lds Loads.op_ld Loads.op_ld_x_inc Loads.op_ld_dec_x Loads.op_ld_y
    Loads.op_ld_y_inc Loads.op_ld_dec_y Loads.op_ld_z Loads.op_ld_z_inc Loads.op_ld_dec_z
loads-Kept d opcode = (
  IfOk-bind (λ k. Unit) _ (second_word d) _ (IfOk-any _)
      (λ k u. loads d opcode _ _ (λ e. (refl, refl, refl))),
  loads d opcode _ _ same,
  loads d opcode _ _ (λ e. (refl, refl, refl)),
  loads (set_core d _) opcode _ _ same,
  loads d opcode _ _ same,
  loads d opcode _ _ (λ e. (refl, refl, refl)),
  loads (set_core d _) opcode _ _ same,
  loads d opcode _ _ same,
  loads d opcode _ _ (λ e. (refl, refl, refl)),
  loads (set_core d _) opcode _ _ same,
)

pub stores-Kept :
    (d : Device) (opcode : ℕ)
    → Kept d (Stores.op_sts d opcode)
      × Kept d (Stores.op_st_x d opcode)
      × Kept d (Stores.op_st_x_inc d opcode)
      × Kept d (Stores.op_st_dec_x d opcode)
      × Kept d (Stores.op_st_y d opcode)
      × Kept d (Stores.op_st_y_inc d opcode)
      × Kept d (Stores.op_st_dec_y d opcode)
      × Kept d (Stores.op_st_z d opcode)
      × Kept d (Stores.op_st_z_inc d opcode)
      × Kept d (Stores.op_st_dec_z d opcode)
unfolding Stores.op_sts Stores.op_st_x Stores.op_st_x_inc Stores.op_st_dec_x Stores.op_st_y
    Stores.op_st_y_inc Stores.op_st_dec_y Stores.op_st_z Stores.op_st_z_inc Stores.op_st_dec_z
stores-Kept d opcode = (
  IfOk-bind (λ k. Unit) _ (second_word d) _ (IfOk-any _)
      (λ k u. stores d opcode _ _ (λ e. (refl, refl, refl))),
  stores d opcode _ _ same,
  stores d opcode _ _ (λ e. (refl, refl, refl)),
  stores (set_core d _) opcode _ _ same,
  stores d opcode _ _ same,
  stores d opcode _ _ (λ e. (refl, refl, refl)),
  stores (set_core d _) opcode _ _ same,
  stores d opcode _ _ same,
  stores d opcode _ _ (λ e. (refl, refl, refl)),
  stores (set_core d _) opcode _ _ same,
)

exchange-Same :
    (f : ℕ → ℕ → ℕ) (d : Device) (opcode : ℕ) → IfOk (λ r. Same d r.1) (Stores.exchange f d opcode)
exchange-Same f d opcode =
    IfOk-bind (λ r. Same d r.1) (λ r. Same d r.1) (get_data_mem d _) _ (get_data_mem-Same d _)
      (λ r p.
        IfOk-bind (Same d) (λ r. Same d r.1) (set_data_mem r.1 _ _) _
          (IfOk-Same d r.1 (set_data_mem r.1 _ _) p (set_data_mem-Same r.1 _ _)) (λ e q. q))

exchanged :
    (f : ℕ → ℕ → ℕ) (d : Device) (opcode : ℕ) (last : ℕ → Device → Device × ℕ)
    → ((v : ℕ) (e : Device) → Same e (last v e).0)
    → Kept d (Stores.exchange f d opcode >>= λ r. ok (last r.0 r.1))
exchanged f d opcode last next =
    IfOk-bind (λ r. Same d r.1) (λ r. Same d r.0) (Stores.exchange f d opcode)
      (λ r. ok (last r.0 r.1)) (exchange-Same f d opcode)
      (λ r p. IfOk-Same d r.1 (ok (last r.0 r.1).0) p (next r.0 r.1))

pub exchanges-Kept :
    (d : Device) (opcode : ℕ)
    → Kept d (Stores.op_xch d opcode)
      × Kept d (Stores.op_lac d opcode)
      × Kept d (Stores.op_las d opcode)
      × Kept d (Stores.op_lat d opcode)
unfolding Stores.op_xch Stores.op_lac Stores.op_las Stores.op_lat
exchanges-Kept d opcode = (
  exchanged (λ rd old. rd) d opcode _ (λ v e. (refl, refl, refl)),
  exchanged (λ rd v. rd &&& inv8 v) d opcode _ (λ v e. (refl, refl, refl)),
  exchanged (λ rd old. rd ||| old) d opcode _ (λ v e. (refl, refl, refl)),
  exchanged (λ rd old. rd ^^^ old) d opcode _ (λ v e. (refl, refl, refl)),
)

pub flash-Kept :
    (d : Device) (opcode : ℕ)
    → Kept d (Flash.op_lpm d opcode)
      × Kept d (Flash.op_lpm_z d opcode)
      × Kept d (Flash.op_elpm d opcode)
      × Kept d (Flash.op_elpm_z d opcode)
      × Kept d (Flash.op_spm d opcode)
unfolding Flash.op_lpm Flash.op_lpm_z Flash.op_elpm Flash.op_elpm_z Flash.op_spm
flash-Kept d opcode = ground arith

pub flow-Kept :
    (small : Bool) (d : Device) (opcode : ℕ)
    → Kept d (Flow.op_jmp d opcode)
      × Kept d (Flow.op_rjmp d opcode)
      × Kept d (Flow.op_ijmp d opcode)
      × Kept d (Flow.op_eijmp small d opcode)
      × Kept d (Flow.op_brbc_brbs d opcode)
      × Kept d (Flow.op_sbrc_sbrs d opcode)
      × Kept d (Flow.op_cpse d opcode)
unfolding Flow.op_jmp Flow.op_rjmp Flow.op_ijmp Flow.op_eijmp Flow.op_brbc_brbs Flow.op_sbrc_sbrs
    Flow.op_cpse
flow-Kept small d opcode = ground arith

skip-Kept : (d e : Device) (test : Bool) → Same d e → Kept d (Flow.skip test e)
skip-Kept d e test p = ground (arith, p)

pub io-Kept :
    (d : Device) (opcode : ℕ)
    → Kept d (Flow.op_sbic_sbis d opcode)
      × Kept d (Io.op_sbi d opcode)
      × Kept d (Io.op_cbi d opcode)
      × Kept d (Io.op_in d opcode)
      × Kept d (Io.op_out d opcode)
unfolding Flow.op_sbic_sbis Io.op_sbi Io.op_cbi Io.op_in Io.op_out
io-Kept d opcode = (
  IfOk-bind (λ r. Same d r.1) _ (get_io_mem d _) _ (get_io_mem-Same d _)
      (λ r p. skip-Kept d r.1 _ p),
  IfOk-bind (λ r. Same d r.1) _ (get_io_mem d _) _ (get_io_mem-Same d _)
      (λ r p.
        written d (set_io_mem r.1 _ _) _
          (IfOk-Same d r.1 (set_io_mem r.1 _ _) p (set_io_mem-Same r.1 _ _)) same),
  IfOk-bind (λ r. Same d r.1) _ (get_io_mem d _) _ (get_io_mem-Same d _)
      (λ r p.
        written d (set_io_mem r.1 _ _) _
          (IfOk-Same d r.1 (set_io_mem r.1 _ _) p (set_io_mem-Same r.1 _ _)) same),
  IfOk-bind (λ r. Same d r.1) _ (get_io_mem d _) _ (get_io_mem-Same d _) (λ r p. p),
  written d (set_io_mem d _ _) _ (set_io_mem-Same d _ _) same,
)

pub steps-Kept :
    (d : Device) (opcode : ℕ)
    → Kept d (Io.op_wdr d opcode)
      × Kept d (Io.op_sleep d opcode)
      × Kept d (Io.op_break d opcode)
      × Kept d (Io.op_des d opcode)
      × Kept d (Io.op_invalid d opcode)
unfolding Io.op_wdr Io.op_sleep Io.op_break Io.op_des Io.op_invalid
steps-Kept d opcode = ground arith
