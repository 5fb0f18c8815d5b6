-- ===== src/Cpu/Dmac/Tests.antt =====
-- Channels configured.
use libyaul.Base.{ℕ, ◌≡◌, refl, true, [], ◌∷◌, none, some, arith}
use libyaul.Cpu.Dmac.{
  Cfg, Channel, State, config_set, selected, channel_start, update, status_get, wait, wait_loop,
}
use libyaul.Cpu.Dmac.Config.{Fits, Configured, config_set-Configured}
use libyaul.Cpu.Dmac.Busy.{status_get-transferring}

-- 256 bytes by fours, with a callback.
abbrev cfg : Cfg
cfg = record {
  channel = 1;
  src_mode = 1;
  dst_mode = 1;
  stride = 2;
  bus_mode = 0;
  src = 0x06010000;
  dst = 0x05C00000;
  len = 256;
  ihr = some (0x06004000, 0);
}

abbrev channel : ℕ → Channel
channel chcr = record { sar = 0; dar = 0; tcr = 0; chcr = chcr; callback = none }

abbrev state : State
state = record { channel0 = channel 0x5601; channel1 = channel 0x5601; dmaor = 1 }

cfg-Fits : Fits cfg
cfg-Fits = record {
  channel = omega arith;
  src_mode = omega arith;
  dst_mode = omega arith;
  stride = omega arith;
  bus_mode = omega arith;
}

config_set-Configured_example :
    (s' : State) × (config_set cfg state ≡ some s')
    × Configured cfg (selected 1 s')
    × (selected 0 s' ≡ selected 0 state)
    × (s'.dmaor ≡ 1)
config_set-Configured_example = config_set-Configured cfg state cfg-Fits

status_get-transferring_example : (status_get state).channel_busy ≡ 0
status_get-transferring_example = status_get-transferring state refl refl

-- A wait for a channel that is enabled returns when a reading has the bit of the end.
wait_example : wait 0 (0x5601 ∷ 0x5603 ∷ []) state ≡ true
unfolding wait selected wait_loop
wait_example = refl

start_example : (channel_start 0 state).channel0.chcr ≡ 0x5601
unfolding channel_start update
start_example = refl
