-- ===== src/Smpc/Tap.antt =====
-- libyaul/scu/bus/cpu/smpc/smpc_peripheral_init.c: the peripherals behind a multi-tap, over the
-- pool that they come from.
use libyaul.Base.{
  ℕ, zero, suc, ◌+◌, ◌*◌, ◌<◌, ◌≡◌, refl, sym, ap, ◌∙◌, Bool, true, false, List, [], none, some,
  ◌==◌, if◌then◌else◌, get_elem?, length, ne→not-==, lt→ltb, ◌/◌, ◌%◌, ◌^◌, arith,
}
use libyaul.Memb.{Memb, RefType, available, alloc_block, free_block}
use libyaul.Memb.Inv.{IsValid}
use libyaul.Memb.Alloc.{served, refused, alloc_block-Outcome, handed_out, handed_out-IsValid}
use libyaul.Memb.Free.{free_block-IsValid}
use libyaul.Memb.RoundTrip.{free_block-alloc_block}
use libyaul.Smpc.Pads.{free_none}
use libyaul.Smpc.{
  State, Port, store, port_at, set_children, set_connected, head_byte, peripheral_update,
  peripheral_alloc, peripheral_free, children, connections, process_port, tap,
}

-- A valid pool with a free block that `memb_alloc` can reach.
abbrev pub HasRoom : Memb → Type 0
HasRoom mb =
    IsValid mb × (j : ℕ) × (0 < j) × (j < mb.bnum) × (get_elem? mb.breftype j ≡ some available)

-- An allocation and the free of its block: the pool is as good as before.
record Cycle (mb : Memb) : Type 0 where
  addr : ℕ
  taken : Memb
  alloc : alloc_block mb ≡ some (some addr, taken)
  freed : (free_block taken addr).0 ≡ true
  room : HasRoom (free_block taken addr).1
  references : (free_block taken addr).1.breftype ≡ mb.breftype
  count : (free_block taken addr).1.size ≡ mb.size

cycle : (mb : Memb) → HasRoom mb → Cycle mb
cycle mb (v, j, pos, l, a) = elim (alloc_block-Outcome mb v) [
  | served i b av w e ↦
      let addr : ℕ = mb.bpool + i * mb.bsize in
      let taken : Memb = handed_out mb i in
      let (f, r, c) = free_block-alloc_block mb taken addr v e in
      let u : IsValid (free_block taken addr).1 =
        free_block-IsValid taken addr (handed_out-IsValid mb i v b av) in
      let n : (free_block taken addr).1.bnum ≡ mb.bnum =
        sym u.refs_length ∙ ap length r ∙ v.refs_length in
      record {
        addr = addr;
        taken = taken;
        alloc = e;
        freed = f;
        room = (u, j, pos, omega (arith, n, l), ap (λ (xs : List RefType). get_elem? xs j) r ∙ a);
        references = r;
        count = c;
      }
  | refused p all e ↦ absurd (cc (all j pos l, a))
]

-- What the loop leaves as it was.
pub record Same (s s' : State) : Type 0 where
  pub port1 : s'.port1 ≡ s.port1
  pub port2 : s'.port2 ≡ s.port2
  pub oreg : s'.oreg ≡ s.oreg
  pub offset : s'.offset ≡ s.offset
  pub references : s'.pool.breftype ≡ s.pool.breftype
  pub count : s'.pool.size ≡ s.pool.size

-- A round of the loop: a block is taken and given back.
after_round : State → ℕ → Memb → State
after_round s addr pool = record (store addr (record (s.memory addr) { connected = 0 }) s) {
  pool = pool;
}

children-suc :
    (which : Bool) (n sub : ℕ) (s : State) (c : Cycle s.pool)
    → children which (suc n) sub s
      ≡ children which n (sub + 1) (after_round s c.addr (free_block c.taken c.addr).1)
unfolding children peripheral_alloc peripheral_update head_byte peripheral_free after_round
children-suc which n sub s c =
    rw (children, peripheral_alloc, c.alloc, peripheral_free, c.freed) refl

-- Whatever the report says of the peripherals behind a multi-tap, the loop over them ends, takes
-- none of them, reads none of their bytes and gives every block back.
pub children-Same :
    (which : Bool) (n sub : ℕ) (s : State)
    → HasRoom s.pool
    → (s' : State) × (children which n sub s ≡ some s') × Same s s' × HasRoom s'.pool
unfolding children after_round
children-Same which zero sub s h = (
  s,
  refl,
  record {
    port1 = refl;
    port2 = refl;
    oreg = refl;
    offset = refl;
    references = refl;
    count = refl;
  },
  h,
)
children-Same which (suc n) sub s h =
    let c = cycle s.pool h in
    let (s', e, w, r) =
      children-Same which n (sub + 1) (after_round s c.addr (free_block c.taken c.addr).1) c.room in
    (
      s',
      children-suc which n sub s c ∙ e,
      record {
        port1 = w.port1;
        port2 = w.port2;
        oreg = w.oreg;
        offset = w.offset;
        references = w.references ∙ c.references;
        count = w.count ∙ c.count;
      },
      r,
    )

-- What a port with several connections is before the loop.
update-tap :
    (addr port byte : ℕ) (s : State)
    → get_elem? s.oreg s.offset ≡ some byte
    → 1 < connections byte
    → peripheral_update none addr port s
      ≡ some (
        some (connections byte),
        store addr
            (tap (connections byte) port (byte / 2 ^ 4 % 16) none (s.memory addr))
            (record s { offset = s.offset + 1 }),
      )
unfolding peripheral_update head_byte
update-tap addr port byte s g n =
    let z : get_elem? s.oreg (s.offset + 0) ≡ some byte =
      ap (get_elem? s.oreg) (let q : s.offset + 0 ≡ s.offset = omega arith in q) ∙ g in
    let m : (connections byte == 0) ≡ false =
      ne→not-== (connections byte) 0 (λ q. absurd (omega (arith, q, n))) in
    rw (peripheral_update, head_byte, z, m, lt→ltb 1 (connections byte) n) refl

-- The state from which the loop starts.
abbrev tapped : Bool → ℕ → State → State
tapped which byte s =
    let addr = (port_at which s).peripheral in
    set_children which [] (
      store addr
        (tap (connections byte) (if which then 2 else 1) (byte / 2 ^ 4 % 16) none (s.memory addr))
        (record s { offset = s.offset + 1 }))

process_port-children :
    (which : Bool) (s : State) (byte : ℕ)
    → get_elem? s.oreg s.offset ≡ some byte
    → 1 < connections byte
    → (port_at which s).peripherals ≡ []
    → process_port which s
      ≡ children which
          (connections byte)
          1
          (set_connected (port_at which s).peripheral (λ c. 0) (tapped which byte s))
unfolding process_port
process_port-children false s byte g n l =
    let s' : State =
      store s.port1.peripheral
        (tap (connections byte) 1 (byte / 2 ^ 4 % 16) none (s.memory s.port1.peripheral))
        (record s { offset = s.offset + 1 }) in
    rw
      (
        process_port,
        update-tap s.port1.peripheral 1 byte s g n,
        free_none false s' l,
        lt→ltb 1 (connections byte) n,
      )
      refl
process_port-children true s byte g n l =
    let s' : State =
      store s.port2.peripheral
        (tap (connections byte) 2 (byte / 2 ^ 4 % 16) none (s.memory s.port2.peripheral))
        (record s { offset = s.offset + 1 }) in
    rw
      (
        process_port,
        update-tap s.port2.peripheral 2 byte s g n,
        free_none true s' l,
        lt→ltb 1 (connections byte) n,
      )
      refl

-- A port that reports a multi-tap with several connections ends with an empty list of
-- peripherals, with one byte of the report read, and with as many blocks of the pool reserved as
-- before, the same ones; the pool is valid and has a free block that can be reached, and no
-- peripherals are listed before.
pub process_port-tap :
    (which : Bool) (s : State) (byte : ℕ)
    → get_elem? s.oreg s.offset ≡ some byte
    → 1 < connections byte
    → (port_at which s).peripherals ≡ []
    → HasRoom s.pool
    → (s' : State) × (process_port which s ≡ some s')
      × ((port_at which s').peripherals ≡ [])
      × (s'.offset ≡ s.offset + 1)
      × (s'.pool.breftype ≡ s.pool.breftype)
process_port-tap false s byte g n l h =
    let (s', e, w, r) =
      children-Same false (connections byte) 1
        (set_connected s.port1.peripheral (λ c. 0) (tapped false byte s)) h in
    (
      s',
      process_port-children false s byte g n l ∙ e,
      ap (λ (p : Port). p.peripherals) w.port1,
      w.offset,
      w.references,
    )
process_port-tap true s byte g n l h =
    let (s', e, w, r) =
      children-Same true (connections byte) 1
        (set_connected s.port2.peripheral (λ c. 0) (tapped true byte s)) h in
    (
      s',
      process_port-children true s byte g n l ∙ e,
      ap (λ (p : Port). p.peripherals) w.port2,
      w.offset,
      w.references,
    )
