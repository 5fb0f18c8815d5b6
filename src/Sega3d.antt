-- ===== src/Sega3d.antt =====
-- libsega3d: the lists of textures and palettes, the stack of matrices, and the lists of packets by
-- depth.
pub mod Lists
pub mod Matrix
pub mod Sort
