-- ===== src/Vdp1/Orderlist/Patch.antt =====
-- libyaul/scu/bus/b/vdp/vdp1_cmdt.c: what an order list holds after it is made and patched.
use libyaul.Base.{
  ℕ, zero, suc, ◌+◌, ◌-◌, ◌*◌, ◌≤◌, ◌<◌, ◌≡◌, refl, sym, ap, ◌∙◌, false, List, some, some_eq, ◌==◌,
  bit_or, get_elem?, set, length, arith, length-set, get_elem?-lt, get_elem?-set_self,
  get_elem?-set_ne, ne→not-==,
}
use native.Mathlib.Decide.{dec_lt}
use libyaul.Base.Words.{add32}
use libyaul.Vdp1.Vram.{cmdt_bytes}
use libyaul.Vdp1.Orderlist.{
  Xfer, xfer_bytes, table_end, alloc_request, each_from, blank, init, patched, mark, vram_patch,
}

-- The allocation has room for one transfer, whatever the count is.
pub alloc_request-overruns :
    (log2 : ℕ → ℕ) (count : ℕ) → 1 < count → (alloc_request log2 count).0 < count * xfer_bytes
unfolding alloc_request
alloc_request-overruns log2 count h = omega (arith, h)

-- What a loop leaves: the places before it, and each of its own changed once.
record Changed (f : ℕ → Xfer → Xfer) (left i : ℕ) (before after : List Xfer) : Type 0 where
  same_length : length after ≡ length before
  kept : (j : ℕ) → j < i → get_elem? after j ≡ get_elem? before j
  done :
      (j : ℕ) (x : Xfer)
      → i ≤ j
      → j < i + left
      → get_elem? before j ≡ some x
      → get_elem? after j ≡ some (f j x)

each_from_lem :
    (f : ℕ → Xfer → Xfer) (left i : ℕ) (table : List Xfer)
    → i + left ≤ length table
    → (after : List Xfer) × (each_from f left i table ≡ some after) × Changed f left i table after
unfolding each_from
each_from_lem f zero i table h = (
  table,
  refl,
  record {
    same_length = refl;
    kept = λ j l. refl;
    done = λ j x l g e. absurd (omega (arith, l, g));
  },
)
each_from_lem f (suc left) i table h =
    let (x, e) = get_elem?-lt table i (omega (arith, h)) in
    let next = set table i (f i x) in
    let l : length (set table i (f i x)) ≡ length table = length-set table i (f i x) in
    let (after, r, c) = each_from_lem f left (i + 1) (set table i (f i x)) (omega (arith, h, l)) in
    (
      after,
      rw (each_from, e) r,
      record {
        same_length = c.same_length ∙ l;
        kept = λ j b.
            c.kept j (omega (arith, b))
            ∙ get_elem?-set_ne table i j (f i x) (λ q. absurd (omega (arith, q, b)));
        done = λ j y b a g. elim (dec_lt i j) [
          | yes later ↦
              c.done j y (omega (arith, later)) (omega (arith, a))
                (get_elem?-set_ne table i j (f i x) (λ q. absurd (omega (arith, q, later))) ∙ g)
          | no here ↦
              let q : i ≡ j = omega (arith, here, b) in
              let y' : y ≡ x = some_eq y x (sym g ∙ ap (get_elem? table) (sym q) ∙ e) in
              ap (get_elem? after) (sym q)
              ∙ c.kept i (omega arith)
              ∙ get_elem?-set_self table i (f i x) (omega (arith, h))
              ∙ ap (λ (k : ℕ). some (f k x)) q
              ∙ ap (λ (z : Xfer). some (f j z)) (sym y')
        ];
      },
    )

-- The transfer of a table in VRAM, before the mark.
abbrev pub sent : ℕ → ℕ → Xfer
sent base j = record { len = cmdt_bytes; dst = add32 base (j * cmdt_bytes); src = 0 }

-- Both loops, before the mark.
init-patch :
    (table : List Xfer) (base count : ℕ)
    → count ≤ length table
    → (made : List Xfer) × (next : List Xfer) × (each_from blank count 0 table ≡ some made)
      × (each_from (patched base) count 0 made ≡ some next)
      × (length next ≡ length table)
      × ((j : ℕ) → j < count → get_elem? next j ≡ some (sent base j))
init-patch table base count h =
    let (made, e, c) = each_from_lem blank count 0 table (omega (arith, h)) in
    let n = c.same_length in
    let (next, f, d) = each_from_lem (patched base) count 0 made (omega (arith, h, n)) in
    (
      made,
      next,
      e,
      f,
      d.same_length ∙ n,
      λ j l.
          let (x, g) = get_elem?-lt table j (omega (arith, h, l)) in
          d.done j (blank j x) (omega arith) (omega (arith, l))
            (c.done j x (omega arith) (omega (arith, l)) g),
    )

-- An order list that is made and then patched sends each of its command tables behind the one
-- before, from the base on, and has the mark of its end in the length of its last transfer; the
-- table has room for the count, which is not 0.
pub vram_patch-init :
    (table : List Xfer) (base count : ℕ)
    → 0 < count
    → count ≤ length table
    → (made : List Xfer) × (done : List Xfer) × (init table count ≡ some made)
      × (vram_patch made base count ≡ some done)
      × (length done ≡ length table)
      × ((j : ℕ) → suc j < count → get_elem? done j ≡ some (sent base j))
      × (get_elem? done (count - 1)
          ≡ some (record (sent base (count - 1)) { len = bit_or cmdt_bytes table_end }))
unfolding init vram_patch mark
vram_patch-init table base count pos h =
    let (made, next, e, f, n, g) = init-patch table base count h in
    let z : (count == 0) ≡ false = ne→not-== count 0 (λ q. absurd (omega (arith, q, pos))) in
    let last = g (count - 1) (omega (arith, pos)) in
    let v : Xfer = record (sent base (count - 1)) { len = bit_or cmdt_bytes table_end } in
    (
      made,
      set next (count - 1) v,
      rw (z, e) refl,
      rw (z, f, mark, last) refl,
      length-set next (count - 1) v ∙ n,
      λ j l.
          get_elem?-set_ne next (count - 1) j v (λ q. absurd (omega (arith, q, l)))
          ∙ g j (omega (arith, l)),
      get_elem?-set_self next (count - 1) v (omega (arith, n, h, pos)),
    )
