-- ===== src/Vdp1/Vram/Layout.antt =====
-- libyaul/scu/bus/b/vdp/vdp1_vram.c: where the parts lie, and what the assert lets through.
use libyaul.Base.{ℕ, ◌+◌, ◌-◌, ◌*◌, ◌^◌, ◌≤◌, ◌<◌, ◌≡◌, refl, none, some, arith, lt→ltb}
use libyaul.Vdp1.Vram.{
  Partitions, vram, vram_bytes, cmdt_bytes, total_size, partitions, partitions_set,
}

-- The parts follow each other without a gap, from behind the first command table to the end of
-- VRAM.
pub record FillsVram (p : Partitions) : Type 0 where
  pub starts : p.cmdt_base ≡ vram + cmdt_bytes
  pub textures : p.texture_base ≡ p.cmdt_base + p.cmdt_size
  pub gourauds : p.gouraud_base ≡ p.texture_base + p.texture_size
  pub cluts : p.clut_base ≡ p.gouraud_base + p.gouraud_size
  pub ends : p.clut_base + p.clut_size + p.remaining_size ≡ vram + vram_bytes

-- `vdp1_vram_partitions_set` of sizes that fit behind the first command table lays the parts out
-- without gap or overlap, in the sizes asked for, and counts the rest up to the end of VRAM.
pub partitions_set-FillsVram :
    (cmdt_count texture_size gouraud_count clut_count : ℕ)
    → cmdt_count * 32 + texture_size + gouraud_count * 8 + clut_count * 32 ≤ vram_bytes - cmdt_bytes
    → (p : Partitions) × (partitions_set cmdt_count texture_size gouraud_count clut_count ≡ some p)
      × FillsVram p
      × (p.cmdt_size ≡ cmdt_count * 32)
      × (p.texture_size ≡ texture_size)
      × (p.gouraud_size ≡ gouraud_count * 8)
      × (p.clut_size ≡ clut_count * 32)
unfolding partitions_set partitions total_size
partitions_set-FillsVram c t g l h =
    let r : (partitions c t g l).remaining_size < 2 ^ 31 = omega (arith, h) in
    (
      partitions c t g l,
      rw (lt→ltb (partitions c t g l).remaining_size (2 ^ 31) r) refl,
      record {
        starts = refl;
        textures = omega (arith, h);
        gourauds = omega (arith, h);
        cluts = omega (arith, h);
        ends = omega (arith, h);
      },
      omega (arith, h),
      refl,
      omega (arith, h),
      omega (arith, h),
    )

-- What does not fit is refused, below 2 ^ 31 bytes.
pub partitions_set-refuses :
    (cmdt_count texture_size gouraud_count clut_count : ℕ)
    → cmdt_count * 32 + texture_size + gouraud_count * 8 + clut_count * 32 < 2 ^ 31
    → vram_bytes - cmdt_bytes < cmdt_count * 32 + texture_size + gouraud_count * 8 + clut_count * 32
    → partitions_set cmdt_count texture_size gouraud_count clut_count ≡ none
unfolding partitions_set partitions total_size
partitions_set-refuses c t g l h k = ground (arith, h, k)

-- A total above 2 ^ 31 is negative as an `int32_t`, and passes.
pub partitions_set-negative :
    (cmdt_count texture_size gouraud_count clut_count : ℕ)
    → cmdt_count * 32 + texture_size + gouraud_count * 8 + clut_count * 32 < 2 ^ 32
    → 2 ^ 31 + vram_bytes ≤ cmdt_count * 32 + texture_size + gouraud_count * 8 + clut_count * 32
    → (p : Partitions) × (partitions_set cmdt_count texture_size gouraud_count clut_count ≡ some p)
      × (vram_bytes < p.cmdt_size + p.texture_size + p.gouraud_size + p.clut_size)
unfolding partitions_set partitions total_size
partitions_set-negative c t g l h k =
    let r : (partitions c t g l).remaining_size < 2 ^ 31 = omega (arith, h, k) in
    (
      partitions c t g l,
      rw (lt→ltb (partitions c t g l).remaining_size (2 ^ 31) r) refl,
      omega (arith, h, k),
    )
