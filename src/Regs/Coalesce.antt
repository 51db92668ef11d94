-- ===== src/Regs/Coalesce.antt =====
-- The IRQ_COALESCE register of driver/phantomfpga_regs.h: [15:0] count, [31:16] timeout.
use phantom_fpga_final_embed.Base.{
  ℕ, ◌+◌, ◌*◌, ◌/◌, ◌%◌, ◌^◌, ◌<◌, bit_and, bit_or, ◌≡◌, ap, arith, u16_mod, u32_mod, bit_or_fields,
  bit_and_mask,
}

-- phantomfpga_irq_coalesce_pack
pub irq_coalesce_pack : ℕ → ℕ → ℕ
irq_coalesce_pack count timeout_us = bit_or (timeout_us * 2 ^ 16 % u32_mod) count

-- phantomfpga_irq_coalesce_unpack: `*count` and `*timeout_us`, each a u16
pub irq_coalesce_unpack : ℕ → ℕ × ℕ
irq_coalesce_unpack val = (bit_and val 0xffff % u16_mod, val / 2 ^ 16 % u16_mod)

pack_lem :
    (count timeout : ℕ)
    → count < u16_mod
    → timeout < u16_mod
    → irq_coalesce_pack count timeout ≡ timeout * 2 ^ 16 + count
unfolding irq_coalesce_pack
pack_lem count timeout hc ht =
    omega (arith, bit_or_fields 16 timeout count hc, ap (λ (t : ℕ). bit_or t count) shifted)
  where
    shifted : timeout * 2 ^ 16 % u32_mod ≡ timeout * 2 ^ 16
    shifted = omega arith

-- What is packed from two u16 values fits the 32-bit register, and unpacking it gives both back.
pub unpack-pack :
    (count timeout : ℕ)
    → count < u16_mod
    → timeout < u16_mod
    → (irq_coalesce_pack count timeout < u32_mod)
      × (irq_coalesce_unpack (irq_coalesce_pack count timeout) ≡ (count, timeout))
unfolding irq_coalesce_unpack
unpack-pack count timeout hc ht =
    ground (arith, pack_lem count timeout hc ht, bit_and_mask 16 (irq_coalesce_pack count timeout))
