-- ===== src/Vdp1/Cmdt.antt =====
-- libyaul/scu/bus/b/vdp/vdp1_cmdt.c: a command table and the functions that fill it in. Every
-- field is the bit pattern of 16 bits.
pub mod Control
pub mod Params
use libyaul.Base.{
  ℕ, zero, suc, ◌*◌, ◌/◌, ◌%◌, ◌^◌, ◌≡◌, Bool, true, false, if◌then◌else◌, ◌==◌, bit_and, bit_or,
}

-- `int16_vec2_t`
pub record Point : Type 0 where
  pub x : ℕ
  pub y : ℕ

-- `vdp1_cmdt_t`; a vertex is the pair of its two words.
pub record Cmdt : Type 0 where
  pub ctrl : ℕ
  pub link : ℕ
  pub pmod : ℕ
  pub colr : ℕ
  pub srca : ℕ
  pub size : ℕ
  pub vertex_a : Point
  pub vertex_b : Point
  pub vertex_c : Point
  pub vertex_d : Point
  pub grda : ℕ

unfoldable pub draw_mode_set : Cmdt → ℕ → Cmdt
draw_mode_set cmdt raw =
    let comm = bit_and cmdt.ctrl 0x0004 in
    record cmdt { pmod = bit_or (bit_or (comm * 2 ^ 5) (comm * 2 ^ 4)) raw }

unfoldable pub zoom_set : Cmdt → ℕ → Cmdt
zoom_set cmdt zoom_point = record cmdt {
  ctrl = bit_or (bit_and cmdt.ctrl 0xF0F0) (bit_or (zoom_point * 2 ^ 8) 0x0001);
}

unfoldable pub char_base_set : Cmdt → ℕ → Cmdt
char_base_set cmdt base = record cmdt { srca = bit_and (base / 2 ^ 3) 0xFFFF }

unfoldable pub color_set : Cmdt → ℕ → Cmdt
color_set cmdt color = record cmdt { colr = color }

unfoldable pub color_bank_set : Cmdt → ℕ → Cmdt
color_bank_set cmdt color_bank = record cmdt { colr = color_bank }

unfoldable pub color_mode0_set : Cmdt → ℕ → Cmdt
color_mode0_set cmdt color_bank = record cmdt {
  pmod = bit_and cmdt.pmod 0xFFC7;
  colr = bit_and color_bank 0xFFF0;
}

unfoldable pub color_mode1_set : Cmdt → ℕ → Cmdt
color_mode1_set cmdt base = record cmdt {
  pmod = bit_or (bit_and cmdt.pmod 0xFFC7) 0x0008;
  colr = bit_and (base / 2 ^ 3) 0xFFFF;
}

unfoldable pub color_mode2_set : Cmdt → ℕ → Cmdt
color_mode2_set cmdt color_bank = record cmdt {
  pmod = bit_or (bit_and cmdt.pmod 0xFFC7) 0x0010;
  colr = bit_and color_bank 0xFFF0;
}

unfoldable pub color_mode3_set : Cmdt → ℕ → Cmdt
color_mode3_set cmdt color_bank = record cmdt {
  pmod = bit_or (bit_and cmdt.pmod 0xFFC7) 0x0018;
  colr = bit_and color_bank 0xFF80;
}

unfoldable pub color_mode4_set : Cmdt → ℕ → Cmdt
color_mode4_set cmdt color_bank = record cmdt {
  pmod = bit_or (bit_and cmdt.pmod 0xFFC7) 0x0020;
  colr = bit_and color_bank 0xFF00;
}

unfoldable pub size_set : Cmdt → ℕ → ℕ → Cmdt
size_set cmdt width height = record cmdt {
  size = bit_and (bit_or (width / 2 ^ 3 * 2 ^ 8) height) 0x3FFF;
}

-- `(uint16_t)flip & 0x0001`
abbrev pub flip_bit : Bool → ℕ
flip_bit true = 1
flip_bit false = 0

unfoldable pub horizontal_flip_set : Cmdt → Bool → Cmdt
horizontal_flip_set cmdt flip = record cmdt {
  ctrl = bit_or (bit_and cmdt.ctrl 0xFFEF) (flip_bit flip * 2 ^ 4);
}

unfoldable pub vertical_flip_set : Cmdt → Bool → Cmdt
vertical_flip_set cmdt flip = record cmdt {
  ctrl = bit_or (bit_and cmdt.ctrl 0xFFDF) (flip_bit flip * 2 ^ 5);
}

-- The index counts the vertices, of which each has two words.
unfoldable pub vertex_set : Cmdt → ℕ → Point → Cmdt
vertex_set cmdt vertex_index p =
    let i = bit_and vertex_index 0x3 in
    record cmdt {
      vertex_a = if i == 0 then p else cmdt.vertex_a;
      vertex_b = if i == 1 then p else cmdt.vertex_b;
      vertex_c = if i == 2 then p else cmdt.vertex_c;
      vertex_d = if i == 3 then p else cmdt.vertex_d;
    }

unfoldable pub vertices_set : Cmdt → Point → Point → Point → Point → Cmdt
vertices_set cmdt a b c d = record cmdt { vertex_a = a; vertex_b = b; vertex_c = c; vertex_d = d }

unfoldable pub gouraud_base_set : Cmdt → ℕ → Cmdt
gouraud_base_set cmdt base = record cmdt { grda = bit_and (base / 2 ^ 3) 0xFFFF }

unfoldable pub normal_sprite_set : Cmdt → Cmdt
normal_sprite_set cmdt = record cmdt { ctrl = bit_or (bit_and cmdt.ctrl 0x7FF0) 0x0000 }

unfoldable pub scaled_sprite_set : Cmdt → Cmdt
scaled_sprite_set cmdt = record cmdt { ctrl = bit_or (bit_and cmdt.ctrl 0x7FF0) 0x0001 }

unfoldable pub distorted_sprite_set : Cmdt → Cmdt
distorted_sprite_set cmdt = record cmdt { ctrl = bit_or (bit_and cmdt.ctrl 0x7FF0) 0x0002 }

unfoldable pub polygon_set : Cmdt → Cmdt
polygon_set cmdt = record cmdt { ctrl = bit_or (bit_and cmdt.ctrl 0x7FF0) 0x0004 }

unfoldable pub polyline_set : Cmdt → Cmdt
polyline_set cmdt = record cmdt { ctrl = bit_or (bit_and cmdt.ctrl 0x7FF0) 0x0005 }

unfoldable pub line_set : Cmdt → Cmdt
line_set cmdt = record cmdt { ctrl = bit_or (bit_and cmdt.ctrl 0x7FF0) 0x0006 }

unfoldable pub user_clip_coord_set : Cmdt → Cmdt
user_clip_coord_set cmdt = record cmdt { ctrl = bit_or (bit_and cmdt.ctrl 0x7FF0) 0x0008 }

unfoldable pub system_clip_coord_set : Cmdt → Cmdt
system_clip_coord_set cmdt = record cmdt { ctrl = bit_or (bit_and cmdt.ctrl 0x7FF0) 0x0009 }

unfoldable pub local_coord_set : Cmdt → Cmdt
local_coord_set cmdt = record cmdt { ctrl = bit_or (bit_and cmdt.ctrl 0x7FF0) 0x000A }

unfoldable pub end_set : Cmdt → Cmdt
end_set cmdt = record cmdt { ctrl = bit_or cmdt.ctrl 0x8000 }

unfoldable pub jump_clear : Cmdt → Cmdt
jump_clear cmdt = record cmdt { ctrl = bit_and cmdt.ctrl 0x8FFF }

unfoldable pub jump_next : Cmdt → Cmdt
jump_next cmdt = record cmdt { ctrl = bit_and cmdt.ctrl 0x8FFF }

unfoldable pub jump_assign : Cmdt → ℕ → Cmdt
jump_assign cmdt index = record cmdt {
  ctrl = bit_or (bit_and cmdt.ctrl 0x8FFF) 0x1000;
  link = index;
}

unfoldable pub jump_call : Cmdt → ℕ → Cmdt
jump_call cmdt index = record cmdt { ctrl = bit_or (bit_and cmdt.ctrl 0x8FFF) 0x2000; link = index }

unfoldable pub jump_skip_assign : Cmdt → ℕ → Cmdt
jump_skip_assign cmdt index = record cmdt {
  ctrl = bit_or (bit_and cmdt.ctrl 0x8FFF) 0x5000;
  link = index;
}

unfoldable pub jump_skip_call : Cmdt → ℕ → Cmdt
jump_skip_call cmdt index = record cmdt {
  ctrl = bit_or (bit_and cmdt.ctrl 0x8FFF) 0x6000;
  link = index;
}

unfoldable pub jump_return : Cmdt → Cmdt
jump_return cmdt = record cmdt { ctrl = bit_or (bit_and cmdt.ctrl 0x8FFF) 0x3000 }

unfoldable pub jump_skip_next : Cmdt → Cmdt
jump_skip_next cmdt = record cmdt { ctrl = bit_or (bit_and cmdt.ctrl 0x8FFF) 0x4000 }

unfoldable pub jump_skip_return : Cmdt → Cmdt
jump_skip_return cmdt = record cmdt { ctrl = bit_or (bit_and cmdt.ctrl 0x8FFF) 0x7000 }
