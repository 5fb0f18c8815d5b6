-- ===== src/Cpu/Dmac/Busy.antt =====
-- libyaul/scu/bus/cpu/cpu_dmac.c: whether a channel is busy.
use libyaul.Base.{
  ℕ, zero, suc, ◌/◌, ◌%◌, ◌<◌, ◌≡◌, refl, ◌∙◌, ◌==◌, if◌then◌else◌, bit_and, bit_or, bit_xor, arith,
}
use libyaul.Base.Bits.{halves_of_and, bit_and-zero}
use libyaul.Cpu.Dmac.{State, busy, status_get}

bit_and-one : (x : ℕ) → bit_and x 1 ≡ x % 2
bit_and-one x = let h = halves_of_and x 1 in let z = bit_and-zero (x / 2) in omega (arith, h, z)

-- The two lowest bits of a register.
low_bits : (chcr : ℕ) → (bit_and chcr 1 ≡ chcr % 2) × (bit_and (chcr / 2) 1 ≡ chcr / 2 % 2)
low_bits chcr = (bit_and-one chcr, bit_and-one (chcr / 2))

busy_bit : ℕ → ℕ → ℕ
busy_bit de te = bit_xor (bit_or (bit_xor (bit_or de te) 1) de) 1

busy_bit_lem : (de te : ℕ) → de < 2 → te < 2 → busy_bit de te ≡ (if de == 0 then te else 0)
unfolding busy_bit
busy_bit_lem zero zero h k = refl
busy_bit_lem zero (suc zero) h k = refl
busy_bit_lem (suc zero) zero h k = refl
busy_bit_lem (suc zero) (suc zero) h k = refl
busy_bit_lem (suc (suc de)) te h k = absurd (omega arith)
busy_bit_lem de (suc (suc te)) h k = absurd (omega arith)

-- A channel is said to be busy exactly if it is not enabled and its transfer
-- has ended.
pub busy_lem : (chcr : ℕ) → busy chcr ≡ (if chcr % 2 == 0 then chcr / 2 % 2 else 0)
unfolding busy busy_bit
busy_lem chcr =
    let (e, f) = low_bits chcr in
    rw (busy, e, f) (busy_bit_lem (chcr % 2) (chcr / 2 % 2) (omega arith) (omega arith))

busy_transferring : (chcr : ℕ) → chcr % 4 ≡ 1 → busy chcr ≡ 0
busy_transferring chcr h = busy_lem chcr ∙ ground (arith, h)

-- `cpu_dmac_status_get` says of channels whose transfers are under way, enabled and not at their
-- end, that they are not busy.
pub status_get-transferring :
    (s : State)
    → s.channel0.chcr % 4 ≡ 1
    → s.channel1.chcr % 4 ≡ 1
    → (status_get s).channel_busy ≡ 0
unfolding status_get
status_get-transferring s h k =
    rw (status_get, busy_transferring s.channel0.chcr h, busy_transferring s.channel1.chcr k) refl
