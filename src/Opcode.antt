-- ===== src/Opcode.antt =====
-- OpcodeDetail of device.cpp: the instructions, in groups.
pub mod Flags
pub mod Arith
pub mod Logic
pub mod Pairs
