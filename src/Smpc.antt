-- ===== src/Smpc.antt =====
-- libyaul/scu/bus/cpu/smpc/smpc_peripheral_init.c: the peripherals that the SMPC reports. A failed
-- assert, and an access outside the OREG buffer, are `none`.
pub mod Collect
pub mod Tap
pub mod Pads
mod Tests
use libyaul.Base.{
  ℕ, zero, suc, ◌+◌, ◌-◌, ◌*◌, ◌/◌, ◌%◌, ◌^◌, ◌≡◌, Bool, true, false, ◌&&◌, ◌||◌, not, List, [],
  ◌∷◌, ◌++◌, Option, none, some, ltb, leb, ◌==◌, if◌then◌else◌, bit_and, bit_or, get_elem?, set,
  length,
}
use libyaul.Memb.{Memb, alloc_block, free_block, init}

-- The fields of `smpc_peripheral_t` that this file uses. `parent` is the number of the port, from
-- 0 on, and `none` for NULL.
pub record Peripheral : Type 0 where
  pub connected : ℕ
  pub port : ℕ
  pub type : ℕ
  pub size : ℕ
  pub parent : Option ℕ
  pub bytes : List ℕ
  pub previous : List ℕ

-- `smpc_peripheral_port_t`: the address of the peripheral at the port, and the list of those
-- behind a multi-tap.
pub record Port : Type 0 where
  pub peripheral : ℕ
  pub peripherals : List ℕ

-- `cpu_smpc_time_t`
pub record Time : Type 0 where
  pub year : ℕ
  pub day : ℕ
  pub month : ℕ
  pub days : ℕ
  pub hours : ℕ
  pub minutes : ℕ
  pub seconds : ℕ

-- The statics of the file. `memory` is what the pool's blocks hold, by their addresses.
pub record State : Type 0 where
  pub pool : Memb
  pub memory : ℕ → Peripheral
  pub port1 : Port
  pub port2 : Port
  pub oreg : List ℕ
  pub offset : ℕ
  pub complete : Bool
  pub time : Time

-- SMPC_OREGS
abbrev pub oregs : ℕ
oregs = 32

-- A write to a peripheral.
abbrev pub store : ℕ → Peripheral → State → State
store addr p s = record s { memory = λ a. if a == addr then p else s.memory a }

-- OREG_GET(_oreg_offset + k)
abbrev pub oreg_get : State → ℕ → Option ℕ
oreg_get s k = get_elem? s.oreg (s.offset + k)

-- The `switch (multitap_id)`.
unfoldable pub connections : ℕ → ℕ
connections byte =
    let id = byte / 2 ^ 4 % 16 in
    let n = byte % 16 in
    if id == 0 || id == 1 || id == 2 || id == 3 || id == 0xE
    then (if ltb n 2 then 0 else n)
    else if id == 0xF
    then (if ltb 1 n then 0 else n)
    else 0

-- The types and the IDs that are not refused.
unfoldable pub known_type : ℕ → Bool
known_type byte =
    let type = byte / 2 ^ 4 % 16 in type == 0 || type == 1 || type == 2 || type == 3 || type == 0xE

unfoldable pub known_id : ℕ → Bool
known_id id =
    id == 0xE1
    || id == 0xE2
    || id == 0xE3
    || id == 0x02
    || id == 0x13
    || id == 0x16
    || id == 0x23
    || id == 0x34
    || id == 0xFA

-- What a call returns, with -1 as `none`, and the state after it.
abbrev pub Updated : Type 0
Updated = Option (Option ℕ × State)

-- `^ 0xFF` of a byte
abbrev pub inverted : ℕ → ℕ
inverted b = 0xFF - b

-- `previous_data[i] = data[i]` for the first `n`.
unfoldable pub copy_first : ℕ → List ℕ → List ℕ → List ℕ
copy_first zero from to = to
copy_first (suc n) (x ∷ from) (y ∷ to) = x ∷ copy_first n from to
copy_first (suc n) _ to = to

-- The `switch (size)` and what follows, at the data.
unfoldable pub take_bytes : ℕ → ℕ → Option ℕ → ℕ → ℕ → State → Updated
unfolding copy_first
take_bytes addr port parent id size s =
    let p = s.memory addr in
    if size == 2 || size == 6
    then elim (oreg_get s 0) [
      | none ↦ none
      | some a ↦ elim (oreg_get s 1) [
        | none ↦ none
        | some b ↦ some (
          some 1,
          record (store addr
              (record {
                connected = 1;
                port = port;
                type = id;
                size = 0;
                parent = parent;
                bytes = set (set p.bytes 0 (inverted a)) 1 (inverted b);
                previous = copy_first size p.bytes p.previous;
              })
              s) { offset = s.offset + size },
        )
      ]
    ]
    else none

-- From the type on, for one peripheral.
unfoldable pub take_one : ℕ → ℕ → Option ℕ → ℕ → State → Updated
unfolding known_type known_id take_bytes
take_one addr port parent id s = elim (oreg_get s 0) [
  | none ↦ none
  | some byte ↦
      if not (known_type byte)
      then some (none, s)
      else if ltb 0 (byte % 16)
      then (if known_id byte
          then take_bytes addr port parent id (byte % 16) (record s { offset = s.offset + 1 })
          else some (none, s))
      else elim (oreg_get s 1) [
        | none ↦ none
        | some size ↦ take_bytes addr port parent id size (record s { offset = s.offset + 2 })
      ]
]

-- The beginning of `peripheral_update`: `connected`, `multitap_id`, and the state. With a parent
-- the first byte is not read and `connected` is 0; `multitap_id` is then not set, which 0 stands
-- for, and not used.
unfoldable pub head_byte : Option ℕ → State → Option (ℕ × ℕ × State)
unfolding connections
head_byte (some parent) s = some (0, 0, s)
head_byte none s = elim (oreg_get s 0) [
  | none ↦ none
  | some byte ↦ some (connections byte, byte / 2 ^ 4 % 16, record s { offset = s.offset + 1 })
]

-- What a port with several connections becomes.
abbrev pub tap : ℕ → ℕ → ℕ → Option ℕ → Peripheral → Peripheral
tap n port id parent p = record p {
  connected = n;
  port = port;
  type = id;
  size = 0;
  parent = parent;
}

unfoldable pub peripheral_update : Option ℕ → ℕ → ℕ → State → Updated
unfolding head_byte take_one
peripheral_update parent addr port s = elim (head_byte parent s) [
  | none ↦ none
  | some (n, id, s') ↦
      if n == 0
      then some (none, s')
      else if ltb 1 n
      then some (some n, store addr (tap n port id parent (s'.memory addr)) s')
      else take_one addr port parent id s'
]

-- `peripheral_alloc`
unfoldable pub peripheral_alloc : State → Option (ℕ × State)
peripheral_alloc s = elim (alloc_block s.pool) [
  | none ↦ none
  | some (none, pool) ↦ none
  | some (some addr, pool) ↦
      some (addr, store addr (record (s.memory addr) { connected = 0 }) (record s { pool = pool }))
]

-- `peripheral_free`
unfoldable pub peripheral_free : ℕ → State → Option State
peripheral_free addr s =
    let (ret, pool) = free_block s.pool addr in
    if ret then some (record s { pool = pool }) else none

-- The first and the second port.
abbrev pub port_at : Bool → State → Port
port_at false s = s.port1
port_at true s = s.port2

abbrev pub set_children : Bool → List ℕ → State → State
set_children false ps s = record s { port1 = record (s.port1) { peripherals = ps } }
set_children true ps s = record s { port2 = record (s.port2) { peripherals = ps } }

abbrev pub set_connected : ℕ → (ℕ → ℕ) → State → State
set_connected addr f s =
    store addr (record (s.memory addr) { connected = f (s.memory addr).connected }) s

-- `port_peripherals_free`, over the list from its head on.
unfoldable pub free_all : List ℕ → State → Option State
unfolding peripheral_free
free_all [] s = some s
free_all (p ∷ ps) s = elim (peripheral_free p s) [ none ↦ none | some s' ↦ free_all ps s' ]

unfoldable pub port_peripherals_free : Bool → State → Option State
unfolding free_all
port_peripherals_free which s = elim (free_all (port_at which s).peripherals s) [
  | none ↦ none
  | some s' ↦ some (set_children which [] s')
]

-- The loop over the connections of a multi-tap, with `n` to go.
unfoldable pub children : Bool → ℕ → ℕ → State → Option State
unfolding peripheral_alloc peripheral_update peripheral_free
children which zero sub_port s = some s
children which (suc n) sub_port s = elim (peripheral_alloc s) [
  | none ↦ none
  | some (addr, s₁) ↦ elim (peripheral_update (some (if which then 1 else 0)) addr sub_port s₁) [
    | none ↦ none
    | some (none, s₂) ↦ elim (peripheral_free addr s₂) [
      | none ↦ none
      | some s₃ ↦ children which n (sub_port + 1) s₃
    ]
    | some (some r, s₂) ↦ children which n (sub_port + 1) (
        set_connected (port_at which s₂).peripheral (λ c. c + 1)
          (set_children which ((port_at which s₂).peripherals ++ addr ∷ []) s₂))
  ]
]

-- The body of the loop over the ports.
unfoldable pub process_port : Bool → State → Option State
unfolding peripheral_update port_peripherals_free children
process_port which s =
    let addr = (port_at which s).peripheral in
    elim (peripheral_update none addr (if which then 2 else 1) s) [
      | none ↦ none
      | some (none, s₁) ↦ port_peripherals_free which (set_connected addr (λ c. 0) s₁)
      | some (some n, s₁) ↦ elim (port_peripherals_free which s₁) [
        | none ↦ none
        | some s₂ ↦ if ltb 1 n then children which n 1 (set_connected addr (λ c. 0) s₂) else some s₂
      ]
    ]

-- The time, from OREG1 on.
unfoldable pub time_of : List ℕ → Option Time
time_of (_ ∷ y0 ∷ y1 ∷ dm ∷ days ∷ hours ∷ minutes ∷ seconds ∷ rest) = some (record {
  year = bit_or (y0 * 2 ^ 8) y1;
  day = bit_and dm 0xF0;
  month = bit_and dm 0x0F;
  days = days;
  hours = hours;
  minutes = minutes;
  seconds = seconds;
})
time_of _ = none

-- `smpc_peripheral_process`
unfoldable pub process : State → Option State
unfolding time_of process_port
process s = if not s.complete then some s else elim (time_of s.oreg) [
  | none ↦ none
  | some t ↦ elim (process_port false (record s { complete = false; time = t; offset = oregs })) [
    | none ↦ none
    | some s₁ ↦ process_port true s₁
  ]
]

-- The registers that the initialisation writes, and its calls of scu/ic.
pub data Event : Type 0 where
  writes_exle1 writes_iosel1 writes_ddr1 writes_pdr1 : ℕ → Event
  mask_chg : (and_mask or_mask : ℕ) → Event
  ihr_set : ℕ → Event

-- `_internal_smpc_peripheral_init`; the number is that of the SMPC's interrupt, whose handler is
-- set.
unfoldable pub peripheral_init : State → Option (State × List Event)
unfolding peripheral_alloc
peripheral_init s = elim (peripheral_alloc (record s { pool = init s.pool })) [
  | none ↦ none
  | some (addr1, s₁) ↦
      elim (peripheral_alloc
        (record s₁ { port1 = record { peripheral = addr1; peripherals = [] } })) [
          | none ↦ none
          | some (addr2, s₂) ↦ some (
            record s₂ { port2 = record { peripheral = addr2; peripherals = [] } },
            writes_exle1 0
                ∷ writes_iosel1 0
                ∷ writes_ddr1 0
                ∷ writes_pdr1 0
                ∷ mask_chg 0xBFFF 0x80
                ∷ ihr_set 0x47
                ∷ mask_chg 0xFFFFFF7F 0
                ∷ [],
          )
        ]
]
