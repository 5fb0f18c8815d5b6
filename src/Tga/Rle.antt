-- ===== src/Tga/Rle.antt =====
-- libtga/tga.c: the decoder of run-length packets.
pub mod Packets
pub mod Length
pub mod Long
use libyaul.Base.{
  ℕ, zero, suc, ◌+◌, ◌-◌, ◌*◌, ◌/◌, ◌%◌, ◌^◌, ◌≡◌, Bool, true, false, List, [], ◌∷◌, ◌++◌, Option,
  none, some, ltb, ◌==◌, if◌then◌else◌, bit_and, drop,
}
use libyaul.Tga.{Tga, Status, unaligned, image_buffer, decode_pixel}
use libyaul.Tga.Fill.{fill}
use libyaul.Tga.Pixels.{pixels_from, stored_at, Decoded, decoded, failed, undefined}

-- `(packet[0] & 0x80) >> 7` is TGA_PACKET_TYPE_RLE, and `rcf`.
unfoldable pub is_run : ℕ → Bool
is_run head = bit_and head 0x80 / 2 ^ 7 == 1

unfoldable pub count : ℕ → ℕ
count head = bit_and head 0x7F + 1

-- The values that a packet stores at `dst`, after its first byte. `none` for undefined behaviour,
-- `some none` for TGA_MEMORY_UNALIGNMENT_ERROR.
unfoldable pub packet_values : Tga → ℕ → ℕ → List ℕ → Option (Option (List ℕ))
unfolding is_run count stored_at
packet_values tga dst head body =
    if is_run head
    then elim (decode_pixel tga body) [ none ↦ none | some p ↦ fill dst p (2 * count head) ]
    else elim (stored_at dst (pixels_from tga 0 (count head) body)) [
      | none ↦ none
      | some out ↦ some (some out)
    ]

-- The bytes of a packet after its first one.
unfoldable pub packet_bytes : Tga → ℕ → ℕ
unfolding is_run count
packet_bytes tga head = if is_run head then tga.bpp / 8 else count head * (tga.bpp / 8)

-- What a packet stored, before what the rest of the loop does.
abbrev pub after : Option (Option (List ℕ)) → Option Decoded → Option Decoded
after none rest = some undefined
after (some none) rest = some (failed unaligned)
after (some (some out)) none = none
after (some (some out)) (some (decoded outs idx)) = some (decoded (out ++ outs) idx)
after (some (some out)) (some (failed e)) = some (failed e)
after (some (some out)) (some undefined) = some undefined

-- The loop over the packets, on at most `fuel` rounds: `none` for more.
unfoldable pub packets : ℕ → Tga → ℕ → ℕ → List ℕ → Option Decoded
unfolding packet_values packet_bytes
packets zero tga dst idx bytes =
    if ltb idx (tga.width * tga.height) then none else some (decoded [] idx)
packets (suc fuel) tga dst idx [] =
    if ltb idx (tga.width * tga.height) then some undefined else some (decoded [] idx)
packets (suc fuel) tga dst idx (head ∷ body) =
    let rest =
      packets fuel tga (dst + 2 * count head) (idx + count head)
        (drop (packet_bytes tga head) body) in
    if ltb idx (tga.width * tga.height)
    then after (packet_values tga dst head body) rest
    else some (decoded [] idx)

-- `true_color_rle_image_decode`: a packet has one pixel at least, so that there are not more
-- rounds than pixels.
unfoldable pub true_color_rle_image_decode : Tga → ℕ → Option Decoded
unfolding packets
true_color_rle_image_decode tga dst = elim (image_buffer tga) [
  | none ↦ some undefined
  | some buf ↦ packets (tga.width * tga.height) tga dst 0 buf
]
