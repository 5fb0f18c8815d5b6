-- ===== src/Smpc/Pads.antt =====
-- libyaul/scu/bus/cpu/smpc/smpc_peripheral_init.c: what is made of a report with digital pads at
-- the ports.
use libyaul.Base.{
  ℕ, ◌+◌, ◌≡◌, refl, Bool, true, false, List, [], ◌∷◌, Option, none, some, if◌then◌else◌, set,
  length,
}
use libyaul.Smpc.{
  State, Peripheral, store, port_at, set_children, copy_first, free_all, port_peripherals_free,
  inverted,
}

-- The bytes of a port with nothing or a digital pad, and of both.
unfoldable pub plug : Option (ℕ × ℕ) → List ℕ
plug none = 0xF0 ∷ []
plug (some (a, b)) = 0xF1 ∷ 0x02 ∷ a ∷ b ∷ []

-- What the peripheral of a port becomes.
unfoldable pub reported : ℕ → Option (ℕ × ℕ) → Peripheral → Peripheral
unfolding copy_first
reported port none p = record p { connected = 0 }
reported port (some (a, b)) p = record {
  connected = 1;
  port = port;
  type = 0xF;
  size = 0;
  parent = none;
  bytes = set (set p.bytes 0 (inverted a)) 1 (inverted b);
  previous = copy_first 2 p.bytes p.previous;
}

-- What the state becomes.
abbrev pub plugged : Bool → Option (ℕ × ℕ) → State → State
plugged which p s =
    let addr = (port_at which s).peripheral in
    set_children which []
      (record (store addr (reported (if which then 2 else 1) p (s.memory addr)) s) {
        offset = s.offset + length (plug p);
      })

pub free_none :
    (which : Bool) (s : State)
    → (port_at which s).peripherals ≡ []
    → port_peripherals_free which s ≡ some (set_children which [] s)
unfolding port_peripherals_free free_all
free_none which s l = rw (port_peripherals_free, l) refl

-- The state after a report of both ports.
abbrev pub both : Option (ℕ × ℕ) → Option (ℕ × ℕ) → State → State
both p q s = plugged true q (plugged false p s)
