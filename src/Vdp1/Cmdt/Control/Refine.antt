-- ===== src/Vdp1/Cmdt/Control/Refine.antt =====
-- libyaul/scu/bus/b/vdp/vdp1_cmdt.c: the setters of the control word implement what they mean.
use libyaul.Base.{
  ℕ, ◌+◌, ◌*◌, ◌/◌, ◌%◌, ◌^◌, ◌<◌, ◌≡◌, refl, sym, ap, ◌∙◌, Bool, true, false, List, [], ◌∷◌,
  bit_and, bit_or, arith, ltb→lt,
}
use libyaul.Base.Bits.{bit_and_ones, bit_and_le, bit_or_lt, bit_or-zero, bit_or_disjoint}
use libyaul.Base.Nibbles.{word}
use libyaul.Base.Ranges.{all_below, all_below_sound}
use libyaul.Vdp1.Cmdt.{
  Cmdt, zoom_set, horizontal_flip_set, vertical_flip_set, flip_bit, end_set, jump_clear, jump_next,
  jump_assign, jump_call, jump_skip_assign, jump_skip_call, jump_return, jump_skip_next,
  jump_skip_return, normal_sprite_set, scaled_sprite_set, distorted_sprite_set, polygon_set,
  polyline_set, line_set, user_clip_coord_set, system_clip_coord_set, local_coord_set,
}
use libyaul.Vdp1.Cmdt.Control.{
  fields, control, Setter, apply, meaning, in_range, run, meanings, all_in_range, normal_sprite,
  scaled_sprite, distorted_sprite, polygon, polyline, line, user_clip_coord, system_clip_coord,
  local_coord, zoom, horizontal_flip, vertical_flip, end_of_list, clear, next, back, skip_next,
  skip_return, assign, call, skip_assign, skip_call,
}
use libyaul.Vdp1.Cmdt.Control.Digits.{
  control-masked, put, same, kept, kept_all, jumped, jumped_all, flipped, flipped_all, keep_digit,
  replace_digit,
}

-- A command is put in.
type_lem :
    (old new : Cmdt) (t : ℕ)
    → old.ctrl < 2 ^ 16
    → t < 16
    → new.ctrl ≡ put old.ctrl (word 7 15 15 0) (word 0 0 0 t)
    → control new ≡ record (control old) { ends = 0; command = t; link = new.link }
unfolding control fields kept
type_lem old new t h l e =
    let k = all_below_sound 16 kept (old.ctrl / 2 ^ 12) kept_all (omega (arith, h)) in
    let b = keep_digit (old.ctrl / 2 ^ 8 % 16) (omega arith) in
    let c = keep_digit (old.ctrl / 2 ^ 4 % 16) (omega arith) in
    let d = replace_digit (old.ctrl % 16) t (omega arith) l in
    control-masked old new 7 15 15 0 0 0 0 t h (omega arith) (omega arith) (omega arith)
      (omega arith) (omega arith) l e
    ∙ same _ _ (ground (arith, k)) (ground (arith, k)) b (omega (arith, c)) (omega (arith, c))
        (omega (arith, c)) d refl

-- A jump is put in.
jump_lem :
    (old new : Cmdt) (j : ℕ)
    → old.ctrl < 2 ^ 16
    → j < 8
    → new.ctrl ≡ put old.ctrl (word 8 15 15 15) (word j 0 0 0)
    → control new ≡ record (control old) { jump = j; link = new.link }
unfolding control fields jumped
jump_lem old new j h l e =
    let k =
      all_below_sound 16 (jumped j) (old.ctrl / 2 ^ 12)
        (all_below_sound 8 (λ (j : ℕ). all_below 16 (jumped j)) j jumped_all l)
        (omega (arith, h)) in
    let b = keep_digit (old.ctrl / 2 ^ 8 % 16) (omega arith) in
    let c = keep_digit (old.ctrl / 2 ^ 4 % 16) (omega arith) in
    let d = keep_digit (old.ctrl % 16) (omega arith) in
    control-masked old new 8 15 15 15 j 0 0 0 h (omega arith) (omega arith) (omega arith)
      (omega arith) (omega arith) (omega arith) e
    ∙ same _ _ (ground (arith, k)) (ground (arith, k)) b (omega (arith, c)) (omega (arith, c))
        (omega (arith, c)) d refl

-- A zoom point is put in.
zoom_lem :
    (old new : Cmdt) (z : ℕ)
    → old.ctrl < 2 ^ 16
    → z < 16
    → new.ctrl ≡ put old.ctrl (word 15 0 15 0) (word 0 z 0 1)
    → control new ≡ record (control old) { zoom_point = z; command = 1; link = new.link }
unfolding control fields
zoom_lem old new z h l e =
    let a = keep_digit (old.ctrl / 2 ^ 12) (omega (arith, h)) in
    let b = replace_digit (old.ctrl / 2 ^ 8 % 16) z (omega arith) l in
    let c = keep_digit (old.ctrl / 2 ^ 4 % 16) (omega arith) in
    let d = replace_digit (old.ctrl % 16) 1 (omega arith) (omega arith) in
    control-masked old new 15 0 15 0 0 z 0 1 h (omega arith) (omega arith) (omega arith) l
      (omega arith) (omega arith) e
    ∙ same _ _ (omega (arith, a)) (omega (arith, a)) b (omega (arith, c)) (omega (arith, c))
        (omega (arith, c)) d refl

h_flip_lem :
    (old new : Cmdt) (f : ℕ)
    → old.ctrl < 2 ^ 16
    → f < 2
    → new.ctrl ≡ put old.ctrl (word 15 15 14 15) (word 0 0 f 0)
    → control new ≡ record (control old) { h_flip = f; link = new.link }
unfolding control fields flipped
h_flip_lem old new f h l e =
    let k =
      all_below_sound 16 (flipped f) (old.ctrl / 2 ^ 4 % 16)
        (all_below_sound 2 (λ (f : ℕ). all_below 16 (flipped f)) f flipped_all l) (omega arith) in
    let a = keep_digit (old.ctrl / 2 ^ 12) (omega (arith, h)) in
    let b = keep_digit (old.ctrl / 2 ^ 8 % 16) (omega arith) in
    let d = keep_digit (old.ctrl % 16) (omega arith) in
    control-masked old new 15 15 14 15 0 0 f 0 h (omega arith) (omega arith) (omega arith)
      (omega arith) (omega (arith, l)) (omega arith) e
    ∙ same _ _ (omega (arith, a)) (omega (arith, a)) b (ground (arith, k)) (ground (arith, k))
        (ground (arith, k)) d refl

v_flip_lem :
    (old new : Cmdt) (f : ℕ)
    → old.ctrl < 2 ^ 16
    → f < 2
    → new.ctrl ≡ put old.ctrl (word 15 15 13 15) (word 0 0 (f * 2) 0)
    → control new ≡ record (control old) { v_flip = f; link = new.link }
unfolding control fields flipped
v_flip_lem old new f h l e =
    let k =
      all_below_sound 16 (flipped f) (old.ctrl / 2 ^ 4 % 16)
        (all_below_sound 2 (λ (f : ℕ). all_below 16 (flipped f)) f flipped_all l) (omega arith) in
    let a = keep_digit (old.ctrl / 2 ^ 12) (omega (arith, h)) in
    let b = keep_digit (old.ctrl / 2 ^ 8 % 16) (omega arith) in
    let d = keep_digit (old.ctrl % 16) (omega arith) in
    control-masked old new 15 15 13 15 0 0 (f * 2) 0 h (omega arith) (omega arith) (omega arith)
      (omega arith) (omega (arith, l)) (omega arith) e
    ∙ same _ _ (omega (arith, a)) (omega (arith, a)) b (ground (arith, k)) (ground (arith, k))
        (ground (arith, k)) d refl

end_lem :
    (old new : Cmdt)
    → old.ctrl < 2 ^ 16
    → new.ctrl ≡ put old.ctrl (word 15 15 15 15) (word 8 0 0 0)
    → control new ≡ record (control old) { ends = 1; link = new.link }
unfolding control fields kept
end_lem old new h e =
    let k = all_below_sound 16 kept (old.ctrl / 2 ^ 12) kept_all (omega (arith, h)) in
    let b = keep_digit (old.ctrl / 2 ^ 8 % 16) (omega arith) in
    let c = keep_digit (old.ctrl / 2 ^ 4 % 16) (omega arith) in
    let d = keep_digit (old.ctrl % 16) (omega arith) in
    control-masked old new 15 15 15 15 8 0 0 0 h (omega arith) (omega arith) (omega arith)
      (omega arith) (omega arith) (omega arith) e
    ∙ same _ _ (ground (arith, k)) (ground (arith, k)) b (omega (arith, c)) (omega (arith, c))
        (omega (arith, c)) d refl

-- All of a word passes the full mask.
put_all : (w q : ℕ) → w < 2 ^ 16 → bit_or w q ≡ put w 0xFFFF q
put_all w q h = ap (λ (x : ℕ). bit_or x q) (sym (bit_and_ones 16 w h))

zoom_bits : (z : ℕ) → bit_or (z * 2 ^ 8) 0x0001 ≡ word 0 z 0 1
unfolding word
zoom_bits z =
    bit_or_disjoint 8 z 1 (omega arith) ∙ (let e : z * 2 ^ 8 + 1 ≡ word 0 z 0 1 = omega arith in e)

flip-lt : (b : Bool) → flip_bit b < 2
flip-lt true = omega arith
flip-lt false = omega arith

-- Every setter does what it means, on the fields of the control word.
pub control-apply :
    (s : Setter) (c : Cmdt)
    → c.ctrl < 2 ^ 16
    → in_range s ≡ true
    → control (apply s c) ≡ meaning s (control c)
unfolding apply meaning in_range control word zoom_set horizontal_flip_set vertical_flip_set end_set
    jump_clear jump_next jump_assign jump_call jump_skip_assign jump_skip_call jump_return
    jump_skip_next jump_skip_return normal_sprite_set scaled_sprite_set distorted_sprite_set
    polygon_set polyline_set line_set user_clip_coord_set system_clip_coord_set local_coord_set
control-apply normal_sprite c h r = type_lem c (apply normal_sprite c) 0 h (omega arith) refl
control-apply scaled_sprite c h r = type_lem c (apply scaled_sprite c) 1 h (omega arith) refl
control-apply distorted_sprite c h r = type_lem c (apply distorted_sprite c) 2 h (omega arith) refl
control-apply polygon c h r = type_lem c (apply polygon c) 4 h (omega arith) refl
control-apply polyline c h r = type_lem c (apply polyline c) 5 h (omega arith) refl
control-apply line c h r = type_lem c (apply line c) 6 h (omega arith) refl
control-apply user_clip_coord c h r = type_lem c (apply user_clip_coord c) 8 h (omega arith) refl
control-apply system_clip_coord c h r =
    type_lem c (apply system_clip_coord c) 9 h (omega arith) refl
control-apply local_coord c h r = type_lem c (apply local_coord c) 10 h (omega arith) refl
control-apply (zoom z) c h r =
    zoom_lem c (apply (zoom z) c) z h (ltb→lt z 16 r)
      (ap (bit_or (bit_and c.ctrl 0xF0F0)) (zoom_bits z))
control-apply (horizontal_flip b) c h r =
    h_flip_lem c (apply (horizontal_flip b) c) (flip_bit b) h (flip-lt b) (
      ap (bit_or (bit_and c.ctrl 0xFFEF))
        (let e : flip_bit b * 2 ^ 4 ≡ word 0 0 (flip_bit b) 0 = omega arith in e))
control-apply (vertical_flip b) c h r =
    v_flip_lem c (apply (vertical_flip b) c) (flip_bit b) h (flip-lt b) (
      ap (bit_or (bit_and c.ctrl 0xFFDF))
        (let e : flip_bit b * 2 ^ 5 ≡ word 0 0 (flip_bit b * 2) 0 = omega arith in e))
control-apply end_of_list c h r = end_lem c (apply end_of_list c) h (put_all c.ctrl 0x8000 h)
control-apply clear c h r =
    jump_lem c (apply clear c) 0 h (omega arith) (sym (bit_or-zero (bit_and c.ctrl 0x8FFF)))
control-apply next c h r =
    jump_lem c (apply next c) 0 h (omega arith) (sym (bit_or-zero (bit_and c.ctrl 0x8FFF)))
control-apply back c h r = jump_lem c (apply back c) 3 h (omega arith) refl
control-apply skip_next c h r = jump_lem c (apply skip_next c) 4 h (omega arith) refl
control-apply skip_return c h r = jump_lem c (apply skip_return c) 7 h (omega arith) refl
control-apply (assign i) c h r = jump_lem c (apply (assign i) c) 1 h (omega arith) refl
control-apply (call i) c h r = jump_lem c (apply (call i) c) 2 h (omega arith) refl
control-apply (skip_assign i) c h r = jump_lem c (apply (skip_assign i) c) 5 h (omega arith) refl
control-apply (skip_call i) c h r = jump_lem c (apply (skip_call i) c) 6 h (omega arith) refl

-- A masked word with bits of a word put in stays a word.
put_bound : (w m q : ℕ) → m < 2 ^ 16 → q < 2 ^ 16 → put w m q < 2 ^ 16
put_bound w m q h l = bit_or_lt 16 (bit_and w m) q (omega (arith, bit_and_le w m, h)) l

ctrl-apply :
    (s : Setter) (c : Cmdt) → c.ctrl < 2 ^ 16 → in_range s ≡ true → (apply s c).ctrl < 2 ^ 16
unfolding apply in_range zoom_set horizontal_flip_set vertical_flip_set end_set jump_clear jump_next
    jump_assign jump_call jump_skip_assign jump_skip_call jump_return jump_skip_next
    jump_skip_return normal_sprite_set scaled_sprite_set distorted_sprite_set polygon_set
    polyline_set line_set user_clip_coord_set system_clip_coord_set local_coord_set
ctrl-apply normal_sprite c h r = put_bound c.ctrl 0x7FF0 0 (omega arith) (omega arith)
ctrl-apply scaled_sprite c h r = put_bound c.ctrl 0x7FF0 1 (omega arith) (omega arith)
ctrl-apply distorted_sprite c h r = put_bound c.ctrl 0x7FF0 2 (omega arith) (omega arith)
ctrl-apply polygon c h r = put_bound c.ctrl 0x7FF0 4 (omega arith) (omega arith)
ctrl-apply polyline c h r = put_bound c.ctrl 0x7FF0 5 (omega arith) (omega arith)
ctrl-apply line c h r = put_bound c.ctrl 0x7FF0 6 (omega arith) (omega arith)
ctrl-apply user_clip_coord c h r = put_bound c.ctrl 0x7FF0 8 (omega arith) (omega arith)
ctrl-apply system_clip_coord c h r = put_bound c.ctrl 0x7FF0 9 (omega arith) (omega arith)
ctrl-apply local_coord c h r = put_bound c.ctrl 0x7FF0 10 (omega arith) (omega arith)
ctrl-apply (zoom z) c h r =
    put_bound c.ctrl 0xF0F0 (bit_or (z * 2 ^ 8) 1) (omega arith)
      (bit_or_lt 16 (z * 2 ^ 8) 1 (let l = ltb→lt z 16 r in omega (arith, l)) (omega arith))
ctrl-apply (horizontal_flip b) c h r =
    put_bound c.ctrl 0xFFEF (flip_bit b * 2 ^ 4) (omega arith) (omega (arith, flip-lt b))
ctrl-apply (vertical_flip b) c h r =
    put_bound c.ctrl 0xFFDF (flip_bit b * 2 ^ 5) (omega arith) (omega (arith, flip-lt b))
ctrl-apply end_of_list c h r = bit_or_lt 16 c.ctrl 0x8000 h (omega arith)
ctrl-apply clear c h r = omega (arith, bit_and_le c.ctrl 0x8FFF)
ctrl-apply next c h r = omega (arith, bit_and_le c.ctrl 0x8FFF)
ctrl-apply back c h r = put_bound c.ctrl 0x8FFF 0x3000 (omega arith) (omega arith)
ctrl-apply skip_next c h r = put_bound c.ctrl 0x8FFF 0x4000 (omega arith) (omega arith)
ctrl-apply skip_return c h r = put_bound c.ctrl 0x8FFF 0x7000 (omega arith) (omega arith)
ctrl-apply (assign i) c h r = put_bound c.ctrl 0x8FFF 0x1000 (omega arith) (omega arith)
ctrl-apply (call i) c h r = put_bound c.ctrl 0x8FFF 0x2000 (omega arith) (omega arith)
ctrl-apply (skip_assign i) c h r = put_bound c.ctrl 0x8FFF 0x5000 (omega arith) (omega arith)
ctrl-apply (skip_call i) c h r = put_bound c.ctrl 0x8FFF 0x6000 (omega arith) (omega arith)

-- Whatever setters of a command table's control word are called, in any order, its fields (end,
-- jump, zoom point, flips, command) and the link are what the setters mean, one after the other:
-- each changes its own field, those of the command also take the end mark away, and a zoom point
-- makes a scaled sprite. The zoom points have four bits and the word 16.
pub control-run :
    (ss : List Setter) (c : Cmdt)
    → c.ctrl < 2 ^ 16
    → all_in_range ss ≡ true
    → control (run ss c) ≡ meanings ss (control c)
unfolding run meanings all_in_range
control-run [] c h r = refl
control-run (s ∷ ss) c h r =
    let q : in_range s ≡ true = ground (arith, r) in
    control-run ss (apply s c) (ctrl-apply s c h q) (ground (arith, r))
    ∙ ap (meanings ss) (control-apply s c h q)
