-- ===== src/Tga/Decode.antt =====
-- libtga/tga.c: `tga_image_decode`, which chooses a decoder by the type of the image.
pub mod Same
pub mod Accepted
use libyaul.Base.{ℕ, ◌≡◌, Bool, true, false, ◌||◌, Option, none, some, ◌==◌, if◌then◌else◌}
use libyaul.Tga.{Tga, Status, corrupted, not_supported}
use libyaul.Tga.Pixels.{Decoded, failed, true_color_image_decode}
use libyaul.Tga.Rle.{true_color_rle_image_decode}
use libyaul.Tga.Indexed.{cmap_image_decode}

-- `none` when the packet decoder took more rounds than there are pixels.
unfoldable pub image_decode : Tga → ℕ → Option Decoded
image_decode tga dst =
    if tga.type == 3 || tga.type == 11
    then some (failed not_supported)
    else if tga.type == 1
    then some (cmap_image_decode tga)
    else if tga.type == 2
    then some (true_color_image_decode tga dst)
    else if tga.type == 10
    then true_color_rle_image_decode tga dst
    else if tga.type == 9
    then some (failed not_supported)
    else some (failed corrupted)
