-- ===== src/Vdp1/Vram.antt =====
-- libyaul/scu/bus/b/vdp/vdp1_vram.c: the parts of the VDP1's VRAM, without DEBUG. `int32_t` is the
-- bit pattern, and its subtraction wraps.
pub mod Layout
use libyaul.Base.{
  ℕ, ◌+◌, ◌-◌, ◌*◌, ◌%◌, ◌^◌, ◌≡◌, Bool, true, false, Option, none, some, ltb, ◌==◌, if◌then◌else◌,
}
use libyaul.Base.Words.{add32, sub32, mul32}

-- `vdp1_vram_partitions_t`; `remaining_base` may be NULL.
pub record Partitions : Type 0 where
  pub cmdt_base : ℕ
  pub cmdt_size : ℕ
  pub texture_base : ℕ
  pub texture_size : ℕ
  pub gouraud_base : ℕ
  pub gouraud_size : ℕ
  pub clut_base : ℕ
  pub clut_size : ℕ
  pub remaining_base : Option ℕ
  pub remaining_size : ℕ

-- VDP1_VRAM(0), VDP1_VRAM_SIZE, and the sizes of `vdp1_cmdt_t`, `vdp1_gouraud_table_t` and
-- `vdp1_clut_t`.
abbrev pub vram : ℕ
vram = 0x25C00000

abbrev pub vram_bytes : ℕ
vram_bytes = 0x00080000

abbrev pub cmdt_bytes : ℕ
cmdt_bytes = 32

abbrev pub gouraud_bytes : ℕ
gouraud_bytes = 8

abbrev pub clut_bytes : ℕ
clut_bytes = 32

-- `total_size` and `remaining_size`.
unfoldable pub total_size : ℕ → ℕ → ℕ → ℕ → ℕ
total_size cmdt_count texture_size gouraud_count clut_count =
    add32
      (add32 (add32 (mul32 cmdt_count cmdt_bytes) texture_size) (mul32 gouraud_count gouraud_bytes))
      (mul32 clut_count clut_bytes)

-- What `vdp1_vram_partitions_set` writes into the partitions.
unfoldable pub partitions : ℕ → ℕ → ℕ → ℕ → Partitions
unfolding total_size
partitions cmdt_count texture_size gouraud_count clut_count =
    let cmdt_size = mul32 cmdt_count cmdt_bytes in
    let gouraud_size = mul32 gouraud_count gouraud_bytes in
    let clut_size = mul32 clut_count clut_bytes in
    let remaining_size =
      sub32 (vram_bytes - cmdt_bytes)
        (total_size cmdt_count texture_size gouraud_count clut_count) in
    let cmdt_base = vram + cmdt_bytes in
    let texture_base = add32 cmdt_base cmdt_size in
    let gouraud_base = add32 texture_base texture_size in
    let clut_base = add32 gouraud_base gouraud_size in
    record {
      cmdt_base = cmdt_base;
      cmdt_size = cmdt_size;
      texture_base = texture_base;
      texture_size = texture_size;
      gouraud_base = gouraud_base;
      gouraud_size = gouraud_size;
      clut_base = clut_base;
      clut_size = clut_size;
      remaining_base = if remaining_size == 0 then none else some (add32 clut_base clut_size);
      remaining_size = remaining_size;
    }

-- `vdp1_vram_partitions_set`: `none` for a failed assert.
unfoldable pub partitions_set : ℕ → ℕ → ℕ → ℕ → Option Partitions
unfolding partitions
partitions_set cmdt_count texture_size gouraud_count clut_count =
    let p = partitions cmdt_count texture_size gouraud_count clut_count in
    if ltb p.remaining_size (2 ^ 31) then some p else none
