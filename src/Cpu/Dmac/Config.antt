-- ===== src/Cpu/Dmac/Config.antt =====
-- libyaul/scu/bus/cpu/cpu_dmac.c: the registers of a channel that has been configured.
use libyaul.Base.{
  ℕ, zero, suc, ◌+◌, ◌-◌, ◌*◌, ◌/◌, ◌%◌, ◌^◌, ◌≤◌, ◌<◌, ◌≡◌, refl, sym, ap, ◌∙◌, Bool, true, false,
  ◌&&◌, Option, none, some, ◌==◌, if◌then◌else◌, bit_and, bit_or, arith, ==→eq, ltb, ◌⊎◌, inl, inr,
}
use native.Mathlib.Decide.{dec_lt}
use libyaul.Base.Bits.{bit_and_ones}
use libyaul.Base.Ranges.{all_below, all_below_sound}
use libyaul.Cpu.Dmac.{
  Cfg, Channel, State, selected, update, channel_stop, chcr_bits, chcr_of, tcr_of, whole,
  config_set,
}

two_cases : (n : ℕ) → n < 2 → (n ≡ 0) ⊎ (n ≡ 1)
two_cases zero h = inl refl
two_cases (suc zero) h = inr refl
two_cases (suc (suc n)) h = absurd (omega arith)

four :
    (a b c d : Bool)
    → (a && (b && (c && d))) ≡ true
    → (a ≡ true) × (b ≡ true) × (c ≡ true) × (d ≡ true)
four true true true true h = (refl, refl, refl, refl)
four false b c d h = absurd (cc)
four true false c d h = absurd (cc)
four true true false d h = absurd (cc)
four true true true false h = absurd (cc)

-- CHCR as the sum of its fields.
abbrev pub fields : (src_mode dst_mode stride bus_mode : ℕ) → ℕ
fields src_mode dst_mode stride bus_mode =
    dst_mode * 2 ^ 14 + src_mode * 2 ^ 12 + stride * 2 ^ 10 + 2 ^ 9 + bus_mode * 2 ^ 4

-- The fields that a number stands for.
abbrev unpacked : {A : Type 0} → (ℕ → ℕ → ℕ → ℕ → A) → ℕ → A
unpacked f n = f (n % 4) (n / 4 % 4) (n / 16 % 4) (n / 64)

is_sum : ℕ → ℕ → ℕ → ℕ → Bool
is_sum a b c d =
    (chcr_bits a b c d == fields a b c d)
    && ((bit_and (chcr_bits a b c d) 0xFFFFFFF7 == fields a b c d)
        && ((bit_or (chcr_bits a b c d) 4 == fields a b c d + 4)
            && (bit_or (bit_and (chcr_bits a b c d) 0xFFFFFFF7) 4 == fields a b c d + 4)))

sums_hold : all_below 128 (unpacked is_sum) ≡ true
unfolding all_below is_sum chcr_bits
sums_hold = refl

is_sum_holds : (a b c d : ℕ) → a < 4 → b < 4 → c < 4 → d < 2 → is_sum a b c d ≡ true
is_sum_holds a b c d ha hb hc hd =
    let n : ℕ = a + 4 * b + 16 * c + 64 * d in
    let h = all_below_sound 128 (unpacked is_sum) n sums_hold (omega (arith, ha, hb, hc, hd)) in
    let ea : n % 4 ≡ a = omega (arith, ha) in
    let eb : n / 4 % 4 ≡ b = omega (arith, ha, hb) in
    let ec : n / 16 % 4 ≡ c = omega (arith, ha, hb, hc) in
    let ed : n / 64 ≡ d = omega (arith, ha, hb, hc) in
    sym (
      ap (λ (x : ℕ). is_sum x (n / 4 % 4) (n / 16 % 4) (n / 64)) ea
      ∙ ap (λ (x : ℕ). is_sum a x (n / 16 % 4) (n / 64)) eb
      ∙ ap (λ (x : ℕ). is_sum a b x (n / 64)) ec
      ∙ ap (λ (x : ℕ). is_sum a b c x) ed)
    ∙ h

-- The bit that enables the interrupt.
abbrev pub interrupt_enable : Option (ℕ × ℕ) → ℕ
interrupt_enable none = 0
interrupt_enable (some f) = 4

chcr_of_cases :
    (big : Bool) (ihr : Option (ℕ × ℕ)) (bits sum : ℕ)
    → bits ≡ sum
    → bit_and bits 0xFFFFFFF7 ≡ sum
    → bit_or bits 4 ≡ sum + 4
    → bit_or (bit_and bits 0xFFFFFFF7) 4 ≡ sum + 4
    → (elim ihr [
      | none ↦ (if big then bit_and bits 0xFFFFFFF7 else bits)
      | some _ ↦ bit_or (if big then bit_and bits 0xFFFFFFF7 else bits) 4
    ])
      ≡ sum + interrupt_enable ihr
chcr_of_cases true none bits sum p q r s = omega (arith, q)
chcr_of_cases true (some f) bits sum p q r s = s
chcr_of_cases false none bits sum p q r s = omega (arith, p)
chcr_of_cases false (some f) bits sum p q r s = r

-- The fields of a configuration have the widths of their registers' fields.
pub record Fits (cfg : Cfg) : Type 0 where
  pub channel : cfg.channel < 2
  pub src_mode : cfg.src_mode < 4
  pub dst_mode : cfg.dst_mode < 4
  pub stride : cfg.stride < 4
  pub bus_mode : cfg.bus_mode < 2

chcr_of_lem :
    (cfg : Cfg)
    → Fits cfg
    → chcr_of cfg
      ≡ fields cfg.src_mode cfg.dst_mode cfg.stride cfg.bus_mode + interrupt_enable cfg.ihr
unfolding chcr_of is_sum
chcr_of_lem cfg w =
    let h =
      is_sum_holds cfg.src_mode cfg.dst_mode cfg.stride cfg.bus_mode w.src_mode w.dst_mode w.stride
        w.bus_mode in
    let bits : ℕ = chcr_bits cfg.src_mode cfg.dst_mode cfg.stride cfg.bus_mode in
    let sum : ℕ = fields cfg.src_mode cfg.dst_mode cfg.stride cfg.bus_mode in
    let (p, q, r, s) =
      four (bits == sum) (bit_and bits 0xFFFFFFF7 == sum) (bit_or bits 4 == sum + 4)
        (bit_or (bit_and bits 0xFFFFFFF7) 4 == sum + 4) h in
    chcr_of_cases (whole (bit_and cfg.stride 3) cfg.len) cfg.ihr bits sum (==→eq bits sum p)
      (==→eq (bit_and bits 0xFFFFFFF7) sum q) (==→eq (bit_or bits 4) (sum + 4) r)
      (==→eq (bit_or (bit_and bits 0xFFFFFFF7) 4) (sum + 4) s)

-- How many units of 2 ^ stride bytes a transfer has; 0 stands for 2 ^ 24, and is that of the
-- stride of 16 bytes (3) and of lengths of 2 ^ 24 or more.
unfoldable pub units : (stride len : ℕ) → ℕ
units stride len = if stride == 3 then 0 else if ltb len (2 ^ 24) then len / 2 ^ stride else 0

tcr_of-long : (stride len : ℕ) → stride < 4 → 2 ^ 24 ≤ len → tcr_of stride len ≡ units stride len
unfolding tcr_of units
tcr_of-long zero len h l = ground (arith, l)
tcr_of-long (suc zero) len h l = ground (arith, l)
tcr_of-long (suc (suc zero)) len h l = ground (arith, l)
tcr_of-long (suc (suc (suc zero))) len h l = refl
tcr_of-long (suc (suc (suc (suc stride)))) len h l = absurd (omega (arith, h))

tcr_of-short : (stride len : ℕ) → stride < 4 → len < 2 ^ 24 → tcr_of stride len ≡ units stride len
unfolding tcr_of units
tcr_of-short zero len h l = ground (arith, l)
tcr_of-short (suc zero) len h l = ground (arith, l)
tcr_of-short (suc (suc zero)) len h l = ground (arith, l)
tcr_of-short (suc (suc (suc zero))) len h l = refl
tcr_of-short (suc (suc (suc (suc stride)))) len h l = absurd (omega (arith, h))

tcr_of_lem : (stride len : ℕ) → stride < 4 → tcr_of stride len ≡ units stride len
tcr_of_lem stride len h = elim (dec_lt len (2 ^ 24)) [
  | yes l ↦ tcr_of-short stride len h l
  | no l ↦ tcr_of-long stride len h (omega (arith, l))
]

-- What a channel is after `cpu_dmac_channel_config_set`.
pub record Configured (cfg : Cfg) (c : Channel) : Type 0 where
  pub sar : c.sar ≡ cfg.src
  pub dar : c.dar ≡ cfg.dst
  pub tcr : c.tcr ≡ units cfg.stride cfg.len
  pub chcr :
      c.chcr ≡ fields cfg.src_mode cfg.dst_mode cfg.stride cfg.bus_mode + interrupt_enable cfg.ihr
  pub callback : c.callback ≡ cfg.ihr

abbrev written : Cfg → Channel
written cfg = record {
  sar = cfg.src;
  dar = cfg.dst;
  tcr = tcr_of (bit_and cfg.stride 3) cfg.len;
  chcr = chcr_of cfg;
  callback = cfg.ihr;
}

written-Configured : (cfg : Cfg) → Fits cfg → Configured cfg (written cfg)
written-Configured cfg w = record {
  sar = refl;
  dar = refl;
  tcr =
      ap (λ (x : ℕ). tcr_of x cfg.len) (bit_and_ones 2 cfg.stride w.stride)
      ∙ tcr_of_lem cfg.stride cfg.len w.stride;
  chcr = chcr_of_lem cfg w;
  callback = refl;
}

selected-even : (ch : ℕ) (s : State) → ch ≡ 0 → selected ch s ≡ s.channel0
unfolding selected
selected-even ch s e = rw e refl

selected-odd : (ch : ℕ) (s : State) → ch ≡ 1 → selected ch s ≡ s.channel1
unfolding selected
selected-odd ch s e = rw e refl

-- `cpu_dmac_channel_config_set` puts the addresses, the number of units and the callback into
-- the channel, and each mode into its own field of the control register, with the interrupt
-- enabled if there is a callback and the channel stopped; the other channel and DMAOR stay. The
-- number of units is 0, which stands for 2 ^ 24, if the stride is 16 bytes or the length is 2 ^
-- 24 or more. The channel, the modes and the stride fit into their fields.
pub config_set-Configured :
    (cfg : Cfg) (s : State)
    → Fits cfg
    → (s' : State) × (config_set cfg s ≡ some s')
      × Configured cfg (selected cfg.channel s')
      × (selected (1 - cfg.channel) s' ≡ selected (1 - cfg.channel) s)
      × (s'.dmaor ≡ s.dmaor)
unfolding config_set update channel_stop
config_set-Configured cfg s w = elim (two_cases cfg.channel w.channel) [
  | inl e ↦
      let s' : State = record s { channel0 = written cfg } in
      let other : 1 - cfg.channel ≡ 1 = omega (arith, e) in
      (
        s',
        rw (config_set, e) refl,
        rw (selected-even cfg.channel s' e) (written-Configured cfg w),
        selected-odd (1 - cfg.channel) s' other ∙ sym (selected-odd (1 - cfg.channel) s other),
        refl,
      )
  | inr e ↦
      let s' : State = record s { channel1 = written cfg } in
      let other : 1 - cfg.channel ≡ 0 = omega (arith, e) in
      (
        s',
        rw (config_set, e) refl,
        rw (selected-odd cfg.channel s' e) (written-Configured cfg w),
        selected-even (1 - cfg.channel) s' other ∙ sym (selected-even (1 - cfg.channel) s other),
        refl,
      )
]
