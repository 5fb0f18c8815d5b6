-- ===== src/Sega3d/Sort/Tests.antt =====
-- Packets added and sent.
use libyaul.Base.{ℕ, ◌≡◌, List, [], ◌∷◌, none, some, arith, replicate, length-replicate}
use libyaul.Sega3d.Sort.{State, added, iterate, clamped, packet_size}
use libyaul.Sega3d.Sort.Chains.{at_depth}
use libyaul.Sega3d.Sort.Sent.{sent, latest_repeated, iterate-added, add-overruns}

-- Two packets at the depth 5, one nearer and one beyond the last depth; the first at the depth 5
-- is not sent.
abbrev packets : List (ℕ × ℕ)
packets = (0x500, 5) ∷ (0x400, 1000) ∷ (0x300, 0xFFFFFFFF) ∷ (0x200, 5) ∷ []

abbrev in_order : List ℕ
in_order = 0x400 ∷ 0x500 ∷ 0x500 ∷ 0x300 ∷ []

iterate-added_example : (s : State) × (added packets ≡ some s) × (iterate s ≡ some in_order)
unfolding sent at_depth clamped latest_repeated
iterate-added_example = iterate-added packets (omega arith)

add-overruns_example : added ((0x100, 7) ∷ replicate packet_size (0x100, 7)) ≡ none
add-overruns_example =
    add-overruns (replicate packet_size (0x100, 7)) 0x100 7
      (length-replicate {A = ℕ × ℕ} packet_size (0x100, 7))
