-- ===== src/Block.antt =====
-- block.h and block/: the register blocks of the device, one module for each class.
pub mod Request
pub mod Cpu
pub mod Port
pub mod Gpior
pub mod Pmic
pub mod Osc
pub mod Clk
pub mod Tc
pub mod Usart
