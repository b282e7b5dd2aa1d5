-- ===== src/Device/Connect/X128a1.antt =====
-- model/x128a1.cpp: the blocks of the ATxmega128A1, with the instances of block/port.h, block/usart.h
-- and block/tc.h.
pub mod Laws
use megumi.Base.{ℕ, Bool, true, List, [], ◌∷◌, ◌+◌, Result, ◌>>=◌}
use megumi.Block.Port.{Port}
use megumi.Block.Tc.{Tc, iv_count}
use megumi.Block.Usart.{Usart}
use megumi.Device.Connect.{ModelConf, block, connect_block, construct}
use megumi.Device.{Device, Block, Peripheral, port_block, tc_block, usart_block}

-- MODEL_CONF
abbrev pub model_conf : ModelConf
model_conf = record {
  flash_size = 0x22000;
  flash_page_size = 0x200;
  flash_boot_size = 0x2000;
  mem_eeprom_size = 0x0800;
  mem_sram_size = 0x4000;
  has_exsram = true;
}

-- The state of the blocks that the constructors leave uninitialised, until reset.
pub record Raw : Type 0 where
  pub port : Port
  pub usart : Usart
  pub tc : Tc

abbrev port_at : Raw → ℕ → ℕ → Result Block
port_at raw addr iv = block (port_block raw.port) addr 32 iv 2

abbrev usart_at : Raw → ℕ → ℕ → Result Block
usart_at raw addr iv = block (usart_block raw.usart) addr 8 iv 3

-- `type_` is the last digit of the name.
abbrev tc_at : Raw → ℕ → ℕ → ℕ → Result Block
tc_at raw kind addr iv =
    let t = record (raw.tc) { kind = kind } in block (tc_block t) addr 0x40 iv (iv_count t)

-- The blocks, in the order in which they are connected.
abbrev pub peripherals : Raw → List (Result Block)
peripherals raw =
    port_at raw 0x0600 66
    ∷ port_at raw 0x0620 34
    ∷ port_at raw 0x0640 2
    ∷ port_at raw 0x0660 64
    ∷ port_at raw 0x0680 43
    ∷ port_at raw 0x06a0 104
    ∷ port_at raw 0x06e0 96
    ∷ port_at raw 0x0700 98
    ∷ port_at raw 0x0720 100
    ∷ port_at raw 0x07c0 94
    ∷ port_at raw 0x07e0 4
    ∷ usart_at raw 0x08a0 25
    ∷ usart_at raw 0x08b0 28
    ∷ usart_at raw 0x09a0 88
    ∷ usart_at raw 0x09b0 91
    ∷ usart_at raw 0x0aa0 58
    ∷ usart_at raw 0x0ab0 61
    ∷ usart_at raw 0x0ba0 119
    ∷ usart_at raw 0x0bb0 122
    ∷ tc_at raw 0 0x0800 14
    ∷ tc_at raw 1 0x0840 20
    ∷ tc_at raw 0 0x0900 77
    ∷ tc_at raw 1 0x0940 83
    ∷ tc_at raw 0 0x0a00 47
    ∷ tc_at raw 1 0x0a40 53
    ∷ tc_at raw 0 0x0b00 108
    ∷ tc_at raw 1 0x0b40 114
    ∷ []

unfoldable pub connect_each : List (Result Block) → Device → Result Device
unfolding connect_block
connect_each [] d = Result.ok d
connect_each (made ∷ rest) d = do b ← made; d' ← connect_block d b; connect_each rest d'

-- ATxmega128A1::ATxmega128A1
unfoldable pub x128a1 : Raw → Device → Result Device
unfolding construct connect_each block
x128a1 raw start = construct model_conf start >>= connect_each (peripherals raw)
