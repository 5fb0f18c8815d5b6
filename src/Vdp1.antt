-- ===== src/Vdp1.antt =====
-- libyaul/scu/bus/b/vdp/vdp1_*.c: the command tables of the VDP1, the lists of them, the parts of
-- its VRAM, and its drawing environment.
pub mod Cmdt
pub mod Vram
pub mod Orderlist
pub mod Env
mod Tests
