-- ===== src/Vdp1/Orderlist.antt =====
-- libyaul/scu/bus/b/vdp/vdp1_cmdt.c: command lists, and order lists, which are tables of SCU-DMA
-- transfers.
pub mod Patch
use libyaul.Base.{
  ℕ, zero, suc, ◌+◌, ◌-◌, ◌*◌, ◌%◌, ◌^◌, ◌≡◌, Bool, true, false, not, List, [], ◌∷◌, Option, none,
  some, ◌==◌, if◌then◌else◌, bit_and, bit_or, get_elem?, set,
}
use libyaul.Base.Words.{add32, sub32}
use libyaul.Vdp1.Vram.{cmdt_bytes}

-- `scu_dma_xfer_t`
pub record Xfer : Type 0 where
  pub len : ℕ
  pub dst : ℕ
  pub src : ℕ

-- sizeof(vdp1_cmdt_orderlist_t) and sizeof(scu_dma_xfer_t)
abbrev pub xfer_bytes : ℕ
xfer_bytes = 12

-- SCU_DMA_INDIRECT_TABLE_END
abbrev pub table_end : ℕ
table_end = 0x80000000

-- What `vdp1_cmdt_orderlist_alloc` asks of `memalign`: the bytes and the alignment. `log2` is
-- `uint32_log2`.
unfoldable pub alloc_request : (ℕ → ℕ) → ℕ → ℕ × ℕ
alloc_request log2 count =
    let boundary = log2 (count * cmdt_bytes) in
    (
      xfer_bytes,
      if bit_and boundary (sub32 boundary 1) == 0 then 2 ^ boundary else 2 ^ (boundary + 1),
    )

-- A loop over the transfers, `left` of them from `i` on. `none`: one is outside the table.
unfoldable pub each_from : (ℕ → Xfer → Xfer) → ℕ → ℕ → List Xfer → Option (List Xfer)
each_from f zero i table = some table
each_from f (suc left) i table = elim (get_elem? table i) [
  | none ↦ none
  | some x ↦ each_from f left (i + 1) (set table i (f i x))
]

-- The body of the loop of `vdp1_cmdt_orderlist_init`.
abbrev pub blank : ℕ → Xfer → Xfer
blank i x = record { len = cmdt_bytes; dst = 0; src = 0 }

-- `vdp1_cmdt_orderlist_init`; `none` also for a failed assert.
unfoldable pub init : List Xfer → ℕ → Option (List Xfer)
unfolding each_from
init table count = if count == 0 then none else each_from blank count 0 table

-- The body of the loop of `vdp1_cmdt_orderlist_vram_patch`.
abbrev pub patched : ℕ → ℕ → Xfer → Xfer
patched base i x = record x { dst = add32 base (i * cmdt_bytes) }

-- The mark on the last transfer.
unfoldable pub mark : ℕ → List Xfer → Option (List Xfer)
mark i table = elim (get_elem? table i) [
  | none ↦ none
  | some x ↦ some (set table i (record x { len = bit_or x.len table_end }))
]

unfoldable pub vram_patch : List Xfer → ℕ → ℕ → Option (List Xfer)
unfolding each_from mark
vram_patch table base count =
    if count == 0 then none else elim (each_from (patched base) count 0 table) [
      | none ↦ none
      | some table' ↦ mark (count - 1) table'
    ]

-- `vdp1_cmdt_orderlist_end`, on the transfer it is given.
unfoldable pub orderlist_end : Xfer → Xfer
orderlist_end x = record x { src = bit_or x.src table_end }
