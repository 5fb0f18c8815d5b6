-- ===== src/Vdp1/Env/Preamble.antt =====
-- libyaul/scu/bus/b/vdp/vdp1_env.c: the command tables at the beginning of a list.
use libyaul.Base.{◌^◌, ◌<◌, ◌≡◌, refl, List, ◌∷◌, some}
use libyaul.Vdp1.Cmdt.{Cmdt, Point, vertex_set}
use libyaul.Vdp1.Cmdt.Control.{
  control, apply, meaning, in_range, system_clip_coord, user_clip_coord, local_coord, end_of_list,
}
use libyaul.Vdp1.Cmdt.Control.Refine.{control-apply}
use libyaul.Vdp1.Env.{preamble_populate, one_less}

-- The four tables: what they are, and where their vertices lie. Their jumps and links stay.
pub record Preamble (res origin : Point) (c0 c1 c2 c3 d0 d1 d2 d3 : Cmdt) : Type 0 where
  pub system_clip : control d0 ≡ record (control c0) { ends = 0; command = 9 }
  pub system_corner : d0.vertex_c ≡ res
  pub user_clip : control d1 ≡ record (control c1) { ends = 0; command = 8 }
  pub user_upper_left : d1.vertex_a ≡ record { x = 0; y = 0 }
  pub user_lower_right : d1.vertex_c ≡ record { x = one_less res.x; y = one_less res.y }
  pub local : control d2 ≡ record (control c2) { ends = 0; command = 10 }
  pub local_origin : d2.vertex_a ≡ origin
  pub end : control d3 ≡ record (control c3) { ends = 1 }

-- `vdp1_env_preamble_populate`, given coordinates, makes four tables, whatever they held: the
-- system clipping at the resolution, the user clipping from 0 to one less than it, the local
-- coordinates given, and an end; jumps, links and other fields of the control words stay, and so
-- do later tables.
pub preamble_populate-Preamble :
    (res origin : Point) (c0 c1 c2 c3 : Cmdt) (cmdts : List Cmdt)
    → c0.ctrl < 2 ^ 16
    → c1.ctrl < 2 ^ 16
    → c2.ctrl < 2 ^ 16
    → c3.ctrl < 2 ^ 16
    → (d0 : Cmdt) × (d1 : Cmdt) × (d2 : Cmdt) × (d3 : Cmdt) × (preamble_populate res
          (some origin)
          (c0 ∷ c1 ∷ c2 ∷ c3 ∷ cmdts)
        ≡ some (d0 ∷ d1 ∷ d2 ∷ d3 ∷ cmdts))
      × Preamble res origin c0 c1 c2 c3 d0 d1 d2 d3
unfolding preamble_populate vertex_set apply meaning in_range control
preamble_populate-Preamble res origin c0 c1 c2 c3 cmdts h0 h1 h2 h3 = (
  _,
  _,
  _,
  _,
  refl,
  record {
    system_clip = control-apply system_clip_coord c0 h0 refl;
    system_corner = refl;
    user_clip = control-apply user_clip_coord c1 h1 refl;
    user_upper_left = refl;
    user_lower_right = refl;
    local = control-apply local_coord c2 h2 refl;
    local_origin = refl;
    end = control-apply end_of_list c3 h3 refl;
  },
)
