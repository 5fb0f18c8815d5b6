-- ===== src/Vdp1/Env/Erase.antt =====
-- libyaul/scu/bus/b/vdp/vdp1_env.c: the corners of the area that the VDP1 erases.
use libyaul.Base.{
  ℕ, ◌+◌, ◌/◌, ◌%◌, ◌^◌, ◌<◌, ◌≤◌, ◌≡◌, refl, ap, ◌∙◌, Bool, true, false, ◌==◌, if◌then◌else◌,
  arith,
}
use libyaul.Base.Bits.{bit_or_disjoint}
use libyaul.Vdp1.Env.{Env, State, shift, shift_next, halved_if, is_double, corner, env_set}

corner_lem : (x y : ℕ) → x < 2 ^ 7 → y < 2 ^ 9 → (corner x y / 2 ^ 9 ≡ x) × (corner x y % 2 ^ 9 ≡ y)
unfolding corner
corner_lem x y h l =
    let e = bit_or_disjoint 9 x y l in (omega (arith, e, h, l), omega (arith, e, h, l))

-- How many pixels a unit of the registers has, across and down.
abbrev pub unit_x : Env → ℕ
unit_x env = if env.bpp == 1 then 16 else 8

abbrev pub unit_y : State → ℕ
unit_y s = if is_double s.tvmd then 2 else 1

half_x : (b : Bool) (v : ℕ) → halved_if b (v / 8) ≡ v / (if b then 16 else 8)
unfolding halved_if
half_x true v = omega arith
half_x false v = refl

half_y : (b : Bool) (v : ℕ) → halved_if b v ≡ v / (if b then 2 else 1)
unfolding halved_if
half_y true v = refl
half_y false v = omega arith

halved_if_le : (b : Bool) (v : ℕ) → halved_if b v ≤ v
unfolding halved_if
halved_if_le true v = omega arith
halved_if_le false v = omega arith

shift_lem : (x : ℕ) → x < 2 ^ 15 → shift x ≡ x / 8
unfolding shift
shift_lem x h = ground (arith, h)

shift_next_lem : (x : ℕ) → x < 2 ^ 15 → shift_next x ≡ (x + 1) / 8
unfolding shift_next
shift_next_lem x h = ground (arith, h)

-- A corner whose parts are in range comes back, in units.
corner-halved :
    (b c : Bool) (x v y : ℕ)
    → x ≡ v / 8
    → v < 1024
    → y < 512
    → (corner (halved_if b x) (halved_if c y) / 2 ^ 9 ≡ v / (if b then 16 else 8))
      × (corner (halved_if b x) (halved_if c y) % 2 ^ 9 ≡ y / (if c then 2 else 1))
corner-halved b c x v y e h l =
    let (p, q) =
      corner_lem (halved_if b x) (halved_if c y) (omega (arith, halved_if_le b x, e, h))
        (omega (arith, halved_if_le c y, l)) in
    (p ∙ ap (halved_if b) e ∙ half_x b v, q ∙ half_y c y)

pub env_set-erase :
    (env : Env) (s : State)
    → env.upper_left.x < 1024
    → env.upper_left.y < 512
    → env.lower_right.x < 1023
    → env.lower_right.y < 512
    → (((env_set env s).0).regs.ewlr / 2 ^ 9 ≡ env.upper_left.x / unit_x env)
      × (((env_set env s).0).regs.ewlr % 2 ^ 9 ≡ env.upper_left.y / unit_y s)
      × (((env_set env s).0).regs.ewrr / 2 ^ 9 ≡ (env.lower_right.x + 1) / unit_x env)
      × (((env_set env s).0).regs.ewrr % 2 ^ 9 ≡ env.lower_right.y / unit_y s)
unfolding env_set
env_set-erase env s a b c d =
    let (p, q) =
      corner-halved (env.bpp == 1) (is_double s.tvmd) (shift env.upper_left.x) env.upper_left.x
        env.upper_left.y (shift_lem env.upper_left.x (omega (arith, a))) a b in
    let (r, t) =
      corner-halved (env.bpp == 1) (is_double s.tvmd) (shift_next env.lower_right.x)
        (env.lower_right.x + 1) env.lower_right.y
        (shift_next_lem env.lower_right.x (omega (arith, c))) (omega (arith, c)) d in
    (p, q, r, t)

corner_wraps : (y : ℕ) → y < 2 ^ 9 → corner 128 y / 2 ^ 9 ≡ 0
unfolding corner
corner_wraps y h = let e = bit_or_disjoint 9 128 y h in omega (arith, e, h)

-- The right edge 1023 or 1024 at 16 bits per pixel becomes 0.
pub env_set-wraps :
    (env : Env) (s : State)
    → env.bpp ≡ 0
    → 1023 ≤ env.lower_right.x
    → env.lower_right.x ≤ 1024
    → env.lower_right.y < 512
    → ((env_set env s).0).regs.ewrr / 2 ^ 9 ≡ 0
unfolding env_set halved_if
env_set-wraps env s z a b c =
    let x : shift_next env.lower_right.x ≡ 128 =
      shift_next_lem env.lower_right.x (omega (arith, b))
      ∙ (let e : (env.lower_right.x + 1) / 8 ≡ 128 = omega (arith, a, b) in e) in
    let n : (env.bpp == 1) ≡ false = ground (arith, z) in
    rw (n, x)
      (corner_wraps (halved_if (is_double s.tvmd) env.lower_right.y)
        (omega (arith, halved_if_le (is_double s.tvmd) env.lower_right.y, c)))
