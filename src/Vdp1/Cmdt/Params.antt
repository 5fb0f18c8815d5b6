-- ===== src/Vdp1/Cmdt/Params.antt =====
-- libyaul/scu/bus/b/vdp/vdp1_cmdt.c: the size, the colour mode, the draw mode and the vertices.
use libyaul.Base.{ℕ, ◌+◌, ◌*◌, ◌/◌, ◌%◌, ◌^◌, ◌<◌, ◌≡◌, ap, ◌∙◌, bit_and, bit_or, arith}
use libyaul.Base.Bits.{bit_and_ones, bit_or_disjoint}
use libyaul.Vdp1.Cmdt.{Cmdt, size_set}

-- The VDP1 reads a width of `size / 2 ^ 8` times 8 and a height of `size % 2 ^ 8`.
pub size-size_set :
    (c : Cmdt) (width height : ℕ)
    → width < 512
    → height < 256
    → ((size_set c width height).size / 2 ^ 8 * 8 ≡ width / 8 * 8)
      × ((size_set c width height).size % 2 ^ 8 ≡ height)
unfolding size_set
size-size_set c width height h l =
    let d : bit_or (width / 2 ^ 3 * 2 ^ 8) height ≡ width / 2 ^ 3 * 2 ^ 8 + height =
      bit_or_disjoint 8 (width / 2 ^ 3) height l in
    let e : (size_set c width height).size ≡ width / 2 ^ 3 * 2 ^ 8 + height =
      ap (λ (x : ℕ). bit_and x 0x3FFF) d
      ∙ bit_and_ones 14 (width / 2 ^ 3 * 2 ^ 8 + height) (omega (arith, h, l)) in
    (omega (arith, e, h, l), omega (arith, e, h, l))
