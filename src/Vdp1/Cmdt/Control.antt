-- ===== src/Vdp1/Cmdt/Control.antt =====
-- libyaul/scu/bus/b/vdp/vdp1_cmdt.c: the control word as independent fields, of which every setter
-- changes its own.
pub mod Digits
pub mod Refine
use libyaul.Base.{ℕ, ◌+◌, ◌*◌, ◌/◌, ◌%◌, ◌^◌, ◌≡◌, Bool, true, false, ◌&&◌, List, [], ◌∷◌, ltb}
use libyaul.Vdp1.Cmdt.{
  Cmdt, zoom_set, horizontal_flip_set, vertical_flip_set, flip_bit, end_set, jump_clear, jump_next,
  jump_assign, jump_call, jump_skip_assign, jump_skip_call, jump_return, jump_skip_next,
  jump_skip_return, normal_sprite_set, scaled_sprite_set, distorted_sprite_set, polygon_set,
  polyline_set, line_set, user_clip_coord_set, system_clip_coord_set, local_coord_set,
}

-- What the control word and the link say.
pub record Control : Type 0 where
  pub ends : ℕ
  pub jump : ℕ
  pub zoom_point : ℕ
  pub unused : ℕ
  pub v_flip : ℕ
  pub h_flip : ℕ
  pub command : ℕ
  pub link : ℕ

-- The fields in the four digits of the control word.
unfoldable pub fields : ℕ → ℕ → ℕ → ℕ → ℕ → Control
fields a b c d link = record {
  ends = a / 8;
  jump = a % 8;
  zoom_point = b;
  unused = c / 4;
  v_flip = c / 2 % 2;
  h_flip = c % 2;
  command = d;
  link = link;
}

unfoldable pub control : Cmdt → Control
unfolding fields
control cmdt =
    fields (cmdt.ctrl / 2 ^ 12) (cmdt.ctrl / 2 ^ 8 % 16) (cmdt.ctrl / 2 ^ 4 % 16) (cmdt.ctrl % 16)
      cmdt.link

-- The setters of the control word.
pub data Setter : Type 0 where
  normal_sprite scaled_sprite distorted_sprite polygon polyline line user_clip_coord
        system_clip_coord local_coord :
      Setter
  zoom : ℕ → Setter
  horizontal_flip vertical_flip : Bool → Setter
  end_of_list : Setter
  clear next back skip_next skip_return : Setter
  assign call skip_assign skip_call : ℕ → Setter

unfoldable pub apply : Setter → Cmdt → Cmdt
apply normal_sprite c = normal_sprite_set c
apply scaled_sprite c = scaled_sprite_set c
apply distorted_sprite c = distorted_sprite_set c
apply polygon c = polygon_set c
apply polyline c = polyline_set c
apply line c = line_set c
apply user_clip_coord c = user_clip_coord_set c
apply system_clip_coord c = system_clip_coord_set c
apply local_coord c = local_coord_set c
apply (zoom z) c = zoom_set c z
apply (horizontal_flip b) c = horizontal_flip_set c b
apply (vertical_flip b) c = vertical_flip_set c b
apply end_of_list c = end_set c
apply clear c = jump_clear c
apply next c = jump_next c
apply back c = jump_return c
apply skip_next c = jump_skip_next c
apply skip_return c = jump_skip_return c
apply (assign i) c = jump_assign c i
apply (call i) c = jump_call c i
apply (skip_assign i) c = jump_skip_assign c i
apply (skip_call i) c = jump_skip_call c i

-- What each of them means: the command also takes away the end of the list, and a zoom point makes
-- the sprite a scaled one.
unfoldable pub meaning : Setter → Control → Control
meaning normal_sprite c = record c { ends = 0; command = 0 }
meaning scaled_sprite c = record c { ends = 0; command = 1 }
meaning distorted_sprite c = record c { ends = 0; command = 2 }
meaning polygon c = record c { ends = 0; command = 4 }
meaning polyline c = record c { ends = 0; command = 5 }
meaning line c = record c { ends = 0; command = 6 }
meaning user_clip_coord c = record c { ends = 0; command = 8 }
meaning system_clip_coord c = record c { ends = 0; command = 9 }
meaning local_coord c = record c { ends = 0; command = 10 }
meaning (zoom z) c = record c { zoom_point = z; command = 1 }
meaning (horizontal_flip b) c = record c { h_flip = flip_bit b }
meaning (vertical_flip b) c = record c { v_flip = flip_bit b }
meaning end_of_list c = record c { ends = 1 }
meaning clear c = record c { jump = 0 }
meaning next c = record c { jump = 0 }
meaning back c = record c { jump = 3 }
meaning skip_next c = record c { jump = 4 }
meaning skip_return c = record c { jump = 7 }
meaning (assign i) c = record c { jump = 1; link = i }
meaning (call i) c = record c { jump = 2; link = i }
meaning (skip_assign i) c = record c { jump = 5; link = i }
meaning (skip_call i) c = record c { jump = 6; link = i }

-- Every zoom point has four bits.
unfoldable pub in_range : Setter → Bool
in_range (zoom z) = ltb z 16
in_range _ = true

-- Calls one after the other.
unfoldable pub run : List Setter → Cmdt → Cmdt
unfolding apply
run [] c = c
run (s ∷ ss) c = run ss (apply s c)

unfoldable pub meanings : List Setter → Control → Control
unfolding meaning
meanings [] x = x
meanings (s ∷ ss) x = meanings ss (meaning s x)

unfoldable pub all_in_range : List Setter → Bool
unfolding in_range
all_in_range [] = true
all_in_range (s ∷ ss) = in_range s && all_in_range ss
