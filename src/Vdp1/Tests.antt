-- ===== src/Vdp1/Tests.antt =====
-- Runs of the VDP1's parts.
use libyaul.Base.{
  ℕ, suc, ◌+◌, ◌*◌, ◌/◌, ◌%◌, ◌^◌, ◌<◌, ◌≡◌, refl, List, [], ◌∷◌, none, some, true, arith, length,
  get_elem?, bit_or, replicate,
}
use libyaul.Vdp1.Cmdt.{Cmdt, Point, size_set}
use libyaul.Vdp1.Cmdt.Control.{
  control, run, meanings, all_in_range, scaled_sprite, zoom, horizontal_flip, call, end_of_list,
}
use libyaul.Vdp1.Cmdt.Control.Refine.{control-run}
use libyaul.Vdp1.Cmdt.Params.{size-size_set}
use libyaul.Vdp1.Vram.{Partitions, partitions_set, vram_bytes}
use libyaul.Vdp1.Vram.Layout.{
  FillsVram, partitions_set-FillsVram, partitions_set-refuses, partitions_set-negative,
}
use libyaul.Vdp1.Orderlist.{Xfer, alloc_request, init, vram_patch, table_end}
use libyaul.Vdp1.Orderlist.Patch.{alloc_request-overruns, vram_patch-init, sent}
use libyaul.Vdp1.Env.{Env, State, env_set, preamble_populate}
use libyaul.Vdp1.Env.Preamble.{Preamble, preamble_populate-Preamble}
use libyaul.Vdp1.Env.Erase.{env_set-erase, env_set-wraps, unit_x, unit_y}

abbrev origin : Point
origin = record { x = 0; y = 0 }

-- What memory may hold: a polygon with a jump, at the end of a list.
abbrev used : Cmdt
used = record {
  ctrl = 0xF0C4;
  link = 7;
  pmod = 0;
  colr = 0;
  srca = 0;
  size = 0;
  vertex_a = origin;
  vertex_b = origin;
  vertex_c = origin;
  vertex_d = origin;
  grda = 0;
}

control-run_example :
    control (run (scaled_sprite ∷ zoom 10 ∷ horizontal_flip true ∷ call 3 ∷ end_of_list ∷ []) used)
    ≡ meanings
        (scaled_sprite ∷ zoom 10 ∷ horizontal_flip true ∷ call 3 ∷ end_of_list ∷ [])
        (control used)
unfolding all_in_range
control-run_example =
    control-run (scaled_sprite ∷ zoom 10 ∷ horizontal_flip true ∷ call 3 ∷ end_of_list ∷ []) used
      (omega arith) refl

size-size_set_example :
    ((size_set used 328 224).size / 2 ^ 8 * 8 ≡ 328) × ((size_set used 328 224).size % 2 ^ 8 ≡ 224)
size-size_set_example = size-size_set used 328 224 (omega arith) (omega arith)

-- The default partitions.
partitions_set-FillsVram_example :
    (p : Partitions) × (partitions_set 2048 0x6BFE0 1024 256 ≡ some p)
    × FillsVram p
    × (p.cmdt_size ≡ 65536)
    × (p.texture_size ≡ 0x6BFE0)
    × (p.gouraud_size ≡ 8192)
    × (p.clut_size ≡ 8192)
partitions_set-FillsVram_example = partitions_set-FillsVram 2048 0x6BFE0 1024 256 (omega arith)

partitions_set-refuses_example : partitions_set 2048 0x80000 1024 256 ≡ none
partitions_set-refuses_example =
    partitions_set-refuses 2048 0x80000 1024 256 (omega arith) (omega arith)

partitions_set-negative_example :
    (p : Partitions) × (partitions_set 1 0xFFFFFFC0 0 0 ≡ some p)
    × (vram_bytes < p.cmdt_size + p.texture_size + p.gouraud_size + p.clut_size)
partitions_set-negative_example =
    partitions_set-negative 1 0xFFFFFFC0 0 0 (omega arith) (omega arith)

alloc_request-overruns_example : (alloc_request (λ n. 6) 2).0 < 2 * 12
alloc_request-overruns_example = alloc_request-overruns (λ n. 6) 2 (omega arith)

abbrev three : List Xfer
three = replicate 3 (record { len = 1; dst = 2; src = 3 })

vram_patch-init_example :
    (made : List Xfer) × (done : List Xfer) × (init three 2 ≡ some made)
    × (vram_patch made 0x25C00020 2 ≡ some done)
    × (length done ≡ 3)
    × ((j : ℕ) → suc j < 2 → get_elem? done j ≡ some (sent 0x25C00020 j))
    × (get_elem? done 1 ≡ some (record (sent 0x25C00020 1) { len = bit_or 32 table_end }))
vram_patch-init_example = vram_patch-init three 0x25C00020 2 (omega arith) (omega arith)

abbrev screen : Point
screen = record { x = 320; y = 224 }

preamble_populate-Preamble_example :
    (d0 : Cmdt) × (d1 : Cmdt) × (d2 : Cmdt) × (d3 : Cmdt) × (preamble_populate screen
        (some origin)
        (used ∷ used ∷ used ∷ used ∷ [])
      ≡ some (d0 ∷ d1 ∷ d2 ∷ d3 ∷ []))
    × Preamble screen origin used used used used d0 d1 d2 d3
preamble_populate-Preamble_example =
    preamble_populate-Preamble screen origin used used used used [] (omega arith) (omega arith)
      (omega arith) (omega arith)

abbrev env : Env
env = record {
  bpp = 0;
  rotation = 0;
  color_mode = 1;
  sprite_type = 0;
  erase_color = 0;
  upper_left = origin;
  lower_right = record { x = 319; y = 223 };
}

abbrev state : State
state = record {
  default_env = env;
  current_env = env;
  regs = record { tvmr = 0; fbcr = 0; ptmr = 0; ewdr = 0; ewlr = 0; ewrr = 0; endr = 0 };
  tvmd = 0;
  spctl = 0;
  resolution = screen;
}

env_set-erase_example :
    (((env_set env state).0).regs.ewlr / 2 ^ 9 ≡ 0 / unit_x env)
    × (((env_set env state).0).regs.ewlr % 2 ^ 9 ≡ 0 / unit_y state)
    × (((env_set env state).0).regs.ewrr / 2 ^ 9 ≡ 320 / unit_x env)
    × (((env_set env state).0).regs.ewrr % 2 ^ 9 ≡ 223 / unit_y state)
env_set-erase_example =
    env_set-erase env state (omega arith) (omega arith) (omega arith) (omega arith)

abbrev wide : Env
wide = record env { lower_right = record { x = 1024; y = 223 } }

env_set-wraps_example : ((env_set wide state).0).regs.ewrr / 2 ^ 9 ≡ 0
env_set-wraps_example = env_set-wraps wide state refl (omega arith) (omega arith) (omega arith)
