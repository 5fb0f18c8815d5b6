-- ===== src/Cpu.antt =====
-- The peripherals of the CPU.
pub mod Dmac
