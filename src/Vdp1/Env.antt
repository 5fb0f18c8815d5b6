-- ===== src/Vdp1/Env.antt =====
-- libyaul/scu/bus/b/vdp/vdp1_env.c: the drawing environment, without DEBUG, and the command tables
-- at the beginning of a list.
pub mod Erase
pub mod Preamble
use libyaul.Base.{
  ℕ, ◌+◌, ◌-◌, ◌*◌, ◌/◌, ◌%◌, ◌^◌, ◌≡◌, Bool, true, false, ◌&&◌, List, [], ◌∷◌, Option, none, some,
  ltb, ◌==◌, if◌then◌else◌, bit_and, bit_or,
}
use libyaul.Vdp1.Cmdt.{
  Cmdt, Point, system_clip_coord_set, user_clip_coord_set, local_coord_set, vertex_set, end_set,
}

-- `vdp1_env_t`; the enumerations are their values.
pub record Env : Type 0 where
  pub bpp : ℕ
  pub rotation : ℕ
  pub color_mode : ℕ
  pub sprite_type : ℕ
  pub erase_color : ℕ
  pub upper_left : Point
  pub lower_right : Point

-- The copies of the VDP1's registers, `vdp1_registers_t`.
pub record Registers : Type 0 where
  pub tvmr : ℕ
  pub fbcr : ℕ
  pub ptmr : ℕ
  pub ewdr : ℕ
  pub ewlr : ℕ
  pub ewrr : ℕ
  pub endr : ℕ

-- A register that is written.
pub data Register : Type 0 where
  at_tvmr at_ptmr at_fbcr at_ewdr at_ewlr at_ewrr at_endr : Register

-- What the functions use of the state: the default and the current environment, the VDP1's
-- registers, and of the VDP2's state TVMD, SPCTL and the resolution.
pub record State : Type 0 where
  pub default_env : Env
  pub current_env : Env
  pub regs : Registers
  pub tvmd : ℕ
  pub spctl : ℕ
  pub resolution : Point

-- `>> 3` of an `int16_t`, and of one more than it, both put into a `uint16_t`.
unfoldable pub shift : ℕ → ℕ
shift x = if ltb x (2 ^ 15) then x / 8 else x / 8 + 0xE000

unfoldable pub shift_next : ℕ → ℕ
unfolding shift
shift_next x = if ltb x (2 ^ 15) then (x + 1) / 8 else shift ((x + 1) % 2 ^ 16)

-- `x1` or `x3`, and `y1` or `y3`.
unfoldable pub halved_if : Bool → ℕ → ℕ
halved_if true v = v / 2
halved_if false v = v

unfoldable pub is_double : ℕ → Bool
is_double tvmd = bit_and tvmd 0xC0 == 0xC0

-- `(x << 9) | y`, into a `uint16_t`.
unfoldable pub corner : ℕ → ℕ → ℕ
corner x y = bit_or (x * 2 ^ 9) y % 2 ^ 16

-- The sprite type after the test of the depth.
unfoldable pub sprite_type_of : Env → ℕ
sprite_type_of env =
    if ltb env.sprite_type 8 && env.bpp == 1 then (env.sprite_type + 8) % 2 ^ 8 else env.sprite_type

-- SPCTL, with 0xFFFF - v for ~v.
unfoldable pub spctl_of : Env → ℕ → ℕ
unfolding sprite_type_of
spctl_of env spctl =
    let spclmd = env.color_mode * 2 ^ 5 in
    let cleared = bit_and spctl 0xFFC0 in
    let mode =
      if ltb env.sprite_type 8 && env.bpp == 0
      then bit_or (bit_and cleared (0xFFFF - spclmd / 2)) spclmd
      else cleared in
    bit_or mode (bit_and (sprite_type_of env) 0x000F)

-- `vdp1_env_set`: the state after it, and the writes in their order.
unfoldable pub env_set : Env → State → State × List (Register × ℕ)
unfolding shift shift_next halved_if is_double corner spctl_of
env_set env s =
    let half = is_double s.tvmd in
    let tvmr = bit_or (env.rotation * 2) env.bpp in
    let ewlr =
      corner (halved_if (env.bpp == 1) (shift env.upper_left.x))
        (halved_if half env.upper_left.y) in
    let ewrr =
      corner (halved_if (env.bpp == 1) (shift_next env.lower_right.x))
        (halved_if half env.lower_right.y) in
    (
      record s {
        current_env = env;
        regs = record (s.regs) { tvmr = tvmr; ewdr = env.erase_color; ewlr = ewlr; ewrr = ewrr };
        spctl = spctl_of env s.spctl;
      },
      (Register.at_tvmr, tvmr)
          ∷ (Register.at_ewdr, env.erase_color)
          ∷ (Register.at_ewlr, ewlr)
          ∷ (Register.at_ewrr, ewrr)
          ∷ [],
    )

-- `_env_default_erase_update`
unfoldable pub default_erase_update : State → State
default_erase_update s = record s {
  default_env = record (s.default_env) { lower_right = s.resolution };
}

-- `vdp1_env_default_init`: the environment that it hands out.
unfoldable pub default_init : State → State × Env
unfolding default_erase_update
default_init s = (default_erase_update s, (default_erase_update s).default_env)

unfoldable pub default_set : State → State × List (Register × ℕ)
unfolding default_erase_update env_set
default_set s = env_set (default_erase_update s).default_env (default_erase_update s)

-- `vdp1_env_stop`
unfoldable pub stop : State → State × List (Register × ℕ)
stop s = (
  record s {
    regs = record { tvmr = 0; fbcr = 0; ptmr = 0; ewdr = 0; ewlr = 0; ewrr = 0; endr = 0 };
  },
  (Register.at_tvmr, 0)
      ∷ (Register.at_ptmr, 0)
      ∷ (Register.at_fbcr, 0)
      ∷ (Register.at_endr, 0)
      ∷ [],
)

-- The vertices of the clipping and coordinate commands.
abbrev pub vtx_system_clip : ℕ
vtx_system_clip = 2

abbrev pub vtx_user_clip_ul : ℕ
vtx_user_clip_ul = 0

abbrev pub vtx_user_clip_lr : ℕ
vtx_user_clip_lr = 2

abbrev pub vtx_local_coord : ℕ
vtx_local_coord = 0

-- One less, as an `int16_t`.
abbrev pub one_less : ℕ → ℕ
one_less v = (v + 0xFFFF) % 2 ^ 16

-- `vdp1_env_preamble_populate` at a resolution. Without coordinates the origin is the centre.
-- `none`: fewer than four tables.
unfoldable pub preamble_populate : Point → Option Point → List Cmdt → Option (List Cmdt)
preamble_populate res local (c0 ∷ c1 ∷ c2 ∷ c3 ∷ cmdts) =
    let coords : Point = elim local [
      | none ↦ record { x = res.x / 2; y = res.y / 2 }
      | some p ↦ p
    ] in
    some (
      vertex_set (system_clip_coord_set c0) vtx_system_clip res
      ∷ vertex_set (vertex_set (user_clip_coord_set c1) vtx_user_clip_ul (record { x = 0; y = 0 }))
          vtx_user_clip_lr (record { x = one_less res.x; y = one_less res.y })
      ∷ vertex_set (local_coord_set c2) vtx_local_coord coords
      ∷ end_set c3
      ∷ cmdts)
preamble_populate res local _ = none
