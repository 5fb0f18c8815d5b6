-- ===== src/Sega3d/Sort.antt =====
-- libsega3d/sort.c: the lists of packets by depth, and libsega3d/sega3d-internal.h. An access
-- outside an array is `none`.
pub mod Chains
pub mod Count
pub mod Sent
mod Tests
use libyaul.Base.{
  ℕ, zero, suc, ◌+◌, ◌-◌, ◌^◌, ◌≡◌, Bool, true, false, ◌&&◌, List, [], ◌∷◌, ◌++◌, Option, none,
  some, ltb, leb, if◌then◌else◌, get_elem?, set, replicate, length,
}

-- SORT_Z_RANGE and PACKET_SIZE
abbrev pub sort_z_range : ℕ
sort_z_range = 256

abbrev pub packet_size : ℕ
packet_size = 4096

-- `next_single`: NULL, `_single_empty`, or a node of the pool by its index.
pub data Link : Type 0 where
  null blank : Link
  node : ℕ → Link

-- `sort_single_t`, with the packet's address.
pub record Single : Type 0 where
  pub packet : ℕ
  pub next_single : Link

-- `_state.current` as an index into the pool, the `last_single` of each depth, with `none` for
-- NULL, and the pool.
pub record State : Type 0 where
  pub current : ℕ
  pub sort_list : List (Option ℕ)
  pub pool : List Single

-- `_internal_sort_init`, and `_internal_sort_clear`, which calls it.
unfoldable pub init : State
init = record {
  current = 0;
  sort_list = replicate sort_z_range none;
  pool = replicate packet_size (record { packet = 0; next_single = Link.null });
}

-- The two tests of `pz`, a signed number of 32 bits.
unfoldable pub clamped : ℕ → ℕ
clamped pz =
    let low = if ltb (sort_z_range - 1) pz && ltb pz (2 ^ 31) then sort_z_range - 1 else pz in
    if leb (2 ^ 31) low then 0 else low

-- What the new node is linked to.
abbrev pub link_of : Option ℕ → Link
link_of none = Link.blank
link_of (some k) = Link.node k

-- The two assignments to the node, and that to `last_single`.
abbrev pub linked : ℕ → ℕ → Option ℕ → State → State
linked packet z last s = record {
  current = s.current + 1;
  sort_list = set s.sort_list z (some s.current);
  pool = set s.pool s.current (record { packet = packet; next_single = link_of last });
}

-- `_internal_sort_add`
unfoldable pub add : ℕ → ℕ → State → Option State
unfolding clamped
add packet pz s = elim (get_elem? s.sort_list (clamped pz)) [
  | none ↦ none
  | some last ↦
      if ltb s.current (length s.pool) then some (linked packet (clamped pz) last s) else none
]

-- The `while` loop from `single_next` on: what it calls `fn` with, whose packet is `first`. NULL
-- has no node.
unfoldable pub while_linked : ℕ → List Single → ℕ → Link → Option (List ℕ)
while_linked zero pool first l = none
while_linked (suc fuel) pool first Link.null = none
while_linked (suc fuel) pool first Link.blank = some []
while_linked (suc fuel) pool first (Link.node k) = elim (get_elem? pool k) [
  | none ↦ none
  | some single ↦
      let rest = while_linked fuel pool first single.next_single in
      elim single.next_single [
        | Link.null ↦ some []
        | _ ↦ elim rest [ none ↦ none | some ps ↦ some (first ∷ ps) ]
      ]
]

-- The body of the loop over the depths: the packets that `fn` is called with.
unfoldable pub visit : List Single → Option ℕ → Option (List ℕ)
unfolding while_linked
visit pool none = some []
visit pool (some k) = elim (get_elem? pool k) [
  | none ↦ none
  | some single ↦ elim single.next_single [
    | Link.null ↦ some (single.packet ∷ [])
    | l ↦ elim (while_linked (suc (length pool)) pool single.packet l) [
      | none ↦ none
      | some ps ↦ some (single.packet ∷ ps)
    ]
  ]
]

-- The loop over the depths, with `n` to go, downwards.
unfoldable pub iterate_from : ℕ → State → Option (List ℕ)
unfolding visit
iterate_from zero s = some []
iterate_from (suc z) s =
    let rest = iterate_from z s in
    elim (get_elem? s.sort_list z) [
      | none ↦ none
      | some last ↦ elim (visit s.pool last) [
        | none ↦ none
        | some ps ↦ elim rest [ none ↦ none | some qs ↦ some (ps ++ qs) ]
      ]
    ]

-- `_internal_sort_iterate`, with the packets of the nodes that `fn` is called with.
unfoldable pub iterate : State → Option (List ℕ)
unfolding iterate_from
iterate s = iterate_from sort_z_range s

-- The packets are added after a clear, the last of the list first.
unfoldable pub added : List (ℕ × ℕ) → Option State
unfolding init add
added [] = some init
added ((packet, pz) ∷ xs) = elim (added xs) [ none ↦ none | some s ↦ add packet pz s ]
