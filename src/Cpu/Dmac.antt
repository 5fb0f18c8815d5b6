-- ===== src/Cpu/Dmac.antt =====
-- libyaul/scu/bus/cpu/cpu_dmac.c and cpu/dmac.h: the channels of the CPU's DMA controller, as one
-- of the two CPUs sees them. A register has 32 bits.
pub mod Config
pub mod Busy
mod Tests
use libyaul.Base.{
  ℕ, ◌+◌, ◌*◌, ◌/◌, ◌%◌, ◌^◌, Bool, true, false, ◌||◌, List, [], ◌∷◌, Option, none, some, ltb, leb,
  ◌==◌, if◌then◌else◌, bit_and, bit_or, bit_xor,
}

-- `cpu_dmac_cfg_t`; `ihr` is a function and its argument, and `none` for NULL.
pub record Cfg : Type 0 where
  pub channel : ℕ
  pub src_mode : ℕ
  pub dst_mode : ℕ
  pub stride : ℕ
  pub bus_mode : ℕ
  pub src : ℕ
  pub dst : ℕ
  pub len : ℕ
  pub ihr : Option (ℕ × ℕ)

-- The registers of a channel, and its callback, where `none` is the empty function.
pub record Channel : Type 0 where
  pub sar : ℕ
  pub dar : ℕ
  pub tcr : ℕ
  pub chcr : ℕ
  pub callback : Option (ℕ × ℕ)

-- Both channels, and DMAOR.
pub record State : Type 0 where
  pub channel0 : Channel
  pub channel1 : Channel
  pub dmaor : ℕ

-- The channel that `(ch & 0x01) << 4` selects.
unfoldable pub selected : ℕ → State → Channel
selected ch s = if bit_and ch 1 == 0 then s.channel0 else s.channel1

unfoldable pub update : ℕ → (Channel → Channel) → State → State
update ch f s =
    if bit_and ch 1 == 0
    then record s { channel0 = f s.channel0 }
    else record s { channel1 = f s.channel1 }

-- `cpu_dmac_channel_stop`
unfoldable pub channel_stop : ℕ → State → State
unfolding update
channel_stop ch s = update ch (λ c. record c { chcr = bit_and c.chcr 0xFFFFFFFE }) s

-- `cpu_dmac_channel_start`
unfoldable pub channel_start : ℕ → State → State
unfolding update
channel_start ch s = update ch (λ c. record c { chcr = bit_or (bit_and c.chcr 0xFFFFFFFC) 1 }) s

-- The first value of `reg_chcr`.
unfoldable pub chcr_bits : (src_mode dst_mode stride bus_mode : ℕ) → ℕ
chcr_bits src_mode dst_mode stride bus_mode =
    bit_or
      (bit_or
        (bit_or (bit_or (bit_and src_mode 3 * 2 ^ 12) (bit_and dst_mode 3 * 2 ^ 14))
          (bit_and stride 3 * 2 ^ 10))
        (bit_and bus_mode 1 * 2 ^ 4))
      0x200

-- The test for a transfer in units of 16 bytes.
abbrev pub whole : (stride len : ℕ) → Bool
whole stride len = (stride == 3) || ltb 0xFFFFFF len

-- `reg_tcr`, for the two bits of the stride.
unfoldable pub tcr_of : (stride len : ℕ) → ℕ
tcr_of stride len =
    if whole stride len
    then 0
    else if leb 2 stride
    then len / 2 ^ 2
    else if stride == 1
    then len / 2
    else len

-- `reg_chcr` at the end.
unfoldable pub chcr_of : Cfg → ℕ
unfolding chcr_bits
chcr_of cfg =
    let bits = chcr_bits cfg.src_mode cfg.dst_mode cfg.stride cfg.bus_mode in
    let cleared = if whole (bit_and cfg.stride 3) cfg.len then bit_and bits 0xFFFFFFF7 else bits in
    elim cfg.ihr [ none ↦ cleared | some _ ↦ bit_or cleared 4 ]

-- `cpu_dmac_channel_config_set`. The callbacks are those of the CPU that calls; of the two, that
-- with the index `channel` is set, where the registers are those of `channel & 1`.
unfoldable pub config_set : Cfg → State → Option State
unfolding channel_stop update chcr_of tcr_of
config_set cfg s =
    if leb 2 cfg.channel
    then none
    else some (
        update cfg.channel
          (λ c. record {
            sar = cfg.src;
            dar = cfg.dst;
            tcr = tcr_of (bit_and cfg.stride 3) cfg.len;
            chcr = chcr_of cfg;
            callback = cfg.ihr;
          })
          (channel_stop cfg.channel s))

-- `ch0_busy` and `ch1_busy`, given the channel's CHCR.
unfoldable pub busy : ℕ → ℕ
busy chcr =
    let de = bit_and chcr 1 in
    let te = bit_and (chcr / 2) 1 in bit_xor (bit_or (bit_xor (bit_or de te) 1) de) 1

-- `cpu_dmac_status_t`
pub record Status : Type 0 where
  pub enabled : ℕ
  pub priority_mode : ℕ
  pub address_error : ℕ
  pub nmi_interrupt : ℕ
  pub channel_enabled : ℕ
  pub channel_busy : ℕ

-- `cpu_dmac_status_get`
unfoldable pub status_get : State → Status
unfolding busy
status_get s = record {
  enabled = bit_and s.dmaor 1;
  priority_mode = bit_and (s.dmaor / 2 ^ 3) 1;
  address_error = bit_and (s.dmaor / 2 ^ 2) 1;
  nmi_interrupt = bit_and (s.dmaor / 2) 1;
  channel_enabled = bit_or (bit_and s.channel1.chcr 1 * 2) (bit_and s.channel0.chcr 1);
  channel_busy = bit_or (busy s.channel1.chcr * 2) (busy s.channel0.chcr);
}

-- `cpu_dmac_channel_wait`, with what the CHCR reads in the loop; `false` if the readings are used
-- up.
unfoldable pub wait_loop : List ℕ → Bool
wait_loop [] = false
wait_loop (chcr ∷ more) = let rest = wait_loop more in if bit_and chcr 2 == 0 then rest else true

unfoldable pub wait : ℕ → List ℕ → State → Bool
unfolding selected wait_loop
wait ch readings s =
    if bit_and s.dmaor 1 == 0
    then true
    else if bit_and (selected ch s).chcr 1 == 0
    then true
    else wait_loop readings
