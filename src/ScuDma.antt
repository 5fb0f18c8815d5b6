-- ===== src/ScuDma.antt =====
-- scu/scu_dma.c: `scu_dma_config_buffer`, which encodes a transfer as the registers of an SCU-DMA
-- level. An `assert` that fails is `none`.
pub mod Levels
use libyaul.Base.{ℕ, Option, none, some, ◌||◌, ◌==◌, if◌then◌else◌, bit_and, bit_or}
use libyaul.DmaRing.{Handle}

-- The `xfer` of a `scu_dma_level_cfg_t`, by its mode.
pub data Xfer : Type 0 where
  direct : (len dst src : ℕ) → Xfer
  indirect : ℕ → Xfer

-- `scu_dma_level_cfg_t`
pub record LevelCfg : Type 0 where
  pub xfer : Xfer
  pub stride : ℕ
  pub update : ℕ

-- `CPU_CACHE_THROUGH | x`
pub cache_through : ℕ → ℕ
cache_through x = bit_or 0x20000000 x

-- `scu_dma_config_buffer`, over what the handle holds.
pub config_buffer : Handle → LevelCfg → Option Handle
unfolding cache_through
config_buffer handle cfg =
    let dnmd = bit_and handle.dnmd 0xFEFEFEF8 in
    let dnad = bit_or 0x100 (bit_and cfg.stride 7) in
    let update = bit_and cfg.update 0x10100 in
    elim cfg.xfer [
      | direct len dst src ↦
          if len == 0 || dst == 0 || src == 0
          then none
          else some (record {
            dnr = cache_through src;
            dnw = cache_through dst;
            dnc = len;
            dnad = dnad;
            dnmd = bit_or dnmd update;
          })
      | indirect table ↦
          if table == 0
          then none
          else some (record {
            dnr = 0;
            dnw = cache_through table;
            dnc = 0;
            dnad = dnad;
            dnmd = bit_or (bit_or dnmd 0x1000000) update;
          })
    ]
